-- ===== src/Cdn/Versions.antt =====
-- src/youwol/backends/cdn/utils_indexing.py: the number of a version, by which the versions of a
-- library are sorted.
pub mod Order
use py_youwol.Prelude.{
  ℕ, zero, suc, ◌+◌, ◌-◌, ◌*◌, ◌<◌, ◌≤◌, String, ◌≡◌, refl, Bool, true, false, Option, none, some,
  List, [], ◌∷◌, ◌<>◌, arith, ◌==◌, if◌then◌else◌, ◌⊎◌, inl, inr, ltb,
}
use py_youwol.Prelude.Int.{ℤ, pos, negsuc, ◌+ℤ◌, ◌<ℤ◌, sub_ℕ, pos_part, neg_part}
use py_youwol.Prelude.Text.{str, size}
use py_youwol.Prelude.Exec.{Result, ok, err, value_error, then_ok}

-- `semantic_version.Version`; the parser raises a `ValueError` where it is none.
pub record Version : Type 0 where
  pub major : ℕ
  pub minor : ℕ
  pub patch : ℕ
  pub prerelease : List String

pub record SemanticVersion : Type 0 where
  pub parse_version : String → Result Version

-- `Constants.allowed_prerelease`
abbrev pub allowed_prerelease : List String
allowed_prerelease = "wip" ∷ "alpha" ∷ "alpha-wip" ∷ "beta" ∷ "beta-wip" ∷ []

-- `xs.index(x)`
abbrev pub index_of : String → List String → Result ℕ
index_of x [] = err value_error
index_of x (y ∷ ys) = if y == x then ok 0 else then_ok (index_of x ys) (λ i. ok (suc i))

abbrev pub delta_of : List String → Result ℤ
delta_of [] = ok (pos 0)
delta_of (prerelease ∷ more) =
    if prerelease == "next"
    then ok (pos 1)
    else then_ok (index_of prerelease allowed_prerelease) (λ i. ok (negsuc i))

-- The sum is exact in the floating point numbers of the source below 2^53.
unfoldable pub version_number : Version → Result ℤ
unfolding ◌+ℤ◌
version_number version = then_ok (delta_of version.prerelease) (λ delta.
    ok (pos (version.major * 10000000 + version.minor * 10000 + version.patch * 10) +ℤ delta))

unfoldable pub get_version_number : SemanticVersion → String → Result ℤ
unfolding version_number
get_version_number semver version_str = then_ok (semver.parse_version version_str) version_number

abbrev pub int_text : ℤ → String
int_text (pos n) = str n
int_text (negsuc n) = "-" <> str (suc n)

-- `"0" * n`
abbrev pub zeros : ℕ → String
zeros zero = ""
zeros (suc n) = "0" <> zeros n

unfoldable pub get_version_number_str : SemanticVersion → String → Result String
unfolding get_version_number size
get_version_number_str semver version_str =
    then_ok (get_version_number semver version_str)
      (λ number. let base = int_text number in ok (zeros (10 - size base) <> base))

abbrev pub get_library_id : String → String → String
get_library_id name version = name <> ("#" <> version)
