-- ===== src/Examples/Releases.antt =====
-- Two prereleases of one version.
use py_youwol.Prelude.{String, ◌≡◌, refl, [], ◌∷◌, inr, ◌==◌, if◌then◌else◌, arith}
use py_youwol.Prelude.Int.{ℤ, ◌<ℤ◌}
use py_youwol.Prelude.Exec.{ok}
use py_youwol.Cdn.Versions.{Version, SemanticVersion, get_version_number}
use py_youwol.Cdn.Versions.Order.{
  rank_beta, rank_alpha, IsBounded, IsExact, get_version_number-order,
}

abbrev version_of : String → Version
version_of name = record { major = 1; minor = 2; patch = 3; prerelease = name ∷ [] }

abbrev two_versions : SemanticVersion
two_versions = record {
  parse_version = λ s. ok (version_of (if s == "1.2.3-beta" then "beta" else "alpha"));
}

version_of-IsBounded : (name : String) → IsBounded (version_of name)
version_of-IsBounded name = record {
  major_small = omega arith;
  minor_small = omega arith;
  patch_small = omega arith;
}

get_version_number-order_example :
    (m : ℤ) × (n : ℤ) × (get_version_number two_versions "1.2.3-beta" ≡ ok m)
    × (get_version_number two_versions "1.2.3-alpha" ≡ ok n)
    × (m <ℤ n)
    × IsExact m
    × IsExact n
get_version_number-order_example =
    get_version_number-order two_versions "1.2.3-beta" "1.2.3-alpha" (version_of "beta")
      (version_of "alpha") 1 3 refl refl (rank_beta refl) (rank_alpha refl)
      (version_of-IsBounded "beta") (version_of-IsBounded "alpha")
      (inr (refl, inr (refl, inr (refl, omega arith))))
