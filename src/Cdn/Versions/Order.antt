-- ===== src/Cdn/Versions/Order.antt =====
-- The numbers of versions follow the order of the versions.
use py_youwol.Prelude.{
  ℕ, ◌+◌, ◌*◌, ◌<◌, ◌≤◌, String, ◌≡◌, refl, List, [], ◌∷◌, arith, ◌⊎◌, inl, inr,
}
use py_youwol.Prelude.Int.{ℤ, pos, negsuc, ◌+ℤ◌, ◌<ℤ◌, pos_part, neg_part}
use py_youwol.Prelude.Exec.{ok}
use py_youwol.Cdn.Versions.{Version, SemanticVersion, delta_of, version_number, get_version_number}

-- The prereleases that have a number, by their first name, with their place in the order of the
-- numbers: `beta-wip`, `beta`, `alpha-wip`, `alpha`, `wip`, no prerelease, and `next`.
pub data Rank : List String → ℕ → Type 0 where
  rank_beta_wip : {p more : List String} → p ≡ "beta-wip" ∷ more → Rank p 0
  rank_beta : {p more : List String} → p ≡ "beta" ∷ more → Rank p 1
  rank_alpha_wip : {p more : List String} → p ≡ "alpha-wip" ∷ more → Rank p 2
  rank_alpha : {p more : List String} → p ≡ "alpha" ∷ more → Rank p 3
  rank_wip : {p more : List String} → p ≡ "wip" ∷ more → Rank p 4
  rank_release : {p : List String} → p ≡ [] → Rank p 5
  rank_next : {p more : List String} → p ≡ "next" ∷ more → Rank p 6

-- What a prerelease adds is between -5 and 1, by its place.
abbrev IsPlaced : List String → ℕ → ℤ → Type 0
IsPlaced p i delta =
    (delta_of p ≡ ok delta)
    × (neg_part delta ≤ 5)
    × (pos_part delta ≤ 1)
    × (pos_part delta + 5 ≡ i + neg_part delta)

delta_of-IsPlaced : {p : List String} {i : ℕ} → Rank p i → (delta : ℤ) × IsPlaced p i delta
delta_of-IsPlaced (rank_beta_wip e) = (negsuc 4, (rw e refl, omega arith, omega arith, omega arith))
delta_of-IsPlaced (rank_beta e) = (negsuc 3, (rw e refl, omega arith, omega arith, omega arith))
delta_of-IsPlaced (rank_alpha_wip e) =
    (negsuc 2, (rw e refl, omega arith, omega arith, omega arith))
delta_of-IsPlaced (rank_alpha e) = (negsuc 1, (rw e refl, omega arith, omega arith, omega arith))
delta_of-IsPlaced (rank_wip e) = (negsuc 0, (rw e refl, omega arith, omega arith, omega arith))
delta_of-IsPlaced (rank_release e) = (pos 0, (rw e refl, omega arith, omega arith, omega arith))
delta_of-IsPlaced (rank_next e) = (pos 1, (rw e refl, omega arith, omega arith, omega arith))

-- A version comes before another: by the three numbers, and then by the places of the prereleases.
abbrev pub IsBefore : Version → ℕ → Version → ℕ → Type 0
IsBefore v i w j =
    (v.major < w.major)
    ⊎ ((v.major ≡ w.major)
        × ((v.minor < w.minor)
            ⊎ ((v.minor ≡ w.minor) × ((v.patch < w.patch) ⊎ ((v.patch ≡ w.patch) × (i < j))))))

-- The numbers of a version that leave room for one another, and for exact floating point numbers.
pub record IsBounded (v : Version) : Type 0 where
  pub major_small : v.major < 900000000
  pub minor_small : v.minor < 1000
  pub patch_small : v.patch < 1000

abbrev base_of : Version → ℕ
base_of v = v.major * 10000000 + v.minor * 10000 + v.patch * 10

base_of-bound : (v : Version) → IsBounded v → base_of v < 9007199254000000
base_of-bound v b =
    let x = b.major_small in
    let y = b.minor_small in let z = b.patch_small in omega (arith, x, y, z)

base-order :
    (v w : Version) (d e i j : ℕ) (d' e' : ℕ)
    → IsBounded v
    → IsBounded w
    → d ≤ 1
    → e' ≤ 5
    → d' ≤ 5
    → e ≤ 1
    → d + 5 ≡ i + d'
    → e + 5 ≡ j + e'
    → IsBefore v i w j
    → base_of v + d + e' < base_of w + e + d'
base-order v w d e i j d' e' bv bw d1 e2 d2 e1 p q (inl h) =
    let a = bv.minor_small in let b = bv.patch_small in omega (arith, a, b)
base-order v w d e i j d' e' bv bw d1 e2 d2 e1 p q (inr (x, inl h)) =
    let b = bv.patch_small in omega (arith, b)
base-order v w d e i j d' e' bv bw d1 e2 d2 e1 p q (inr (x, inr (y, inl h))) = omega arith
base-order v w d e i j d' e' bv bw d1 e2 d2 e1 p q (inr (x, inr (y, inr (z, h)))) = omega arith

+ℤ-order :
    (m n : ℕ) (d e : ℤ)
    → m + pos_part d + neg_part e < n + pos_part e + neg_part d
    → pos m +ℤ d <ℤ pos n +ℤ e
unfolding ◌+ℤ◌
+ℤ-order m n d e h = ground arith

version_number-delta :
    (v : Version) (d : ℤ)
    → delta_of v.prerelease ≡ ok d
    → version_number v ≡ ok (pos (base_of v) +ℤ d)
unfolding version_number
version_number-delta v d e = rw e refl

-- The number of a version whose floating point number is exact.
abbrev pub IsExact : ℤ → Type 0
IsExact n = (pos_part n < 9007199254740992) × (neg_part n < 9007199254740992)

sum-IsExact :
    (m : ℕ) (d : ℤ) → m < 9007199254000000 → pos_part d ≤ 1 → neg_part d ≤ 5 → IsExact (pos m +ℤ d)
unfolding ◌+ℤ◌
sum-IsExact m d h p n = ground arith

-- Texts that are read as versions whose major number is below nine hundred million, whose minor and
-- patch numbers are below a thousand, and whose prereleases begin with an allowed name or `next`,
-- have numbers in the order of the versions, all below 2^53: by the three numbers, and then
-- `beta-wip`, `beta`, `alpha-wip`, `alpha`, `wip`, the release, and `next`.
pub get_version_number-order :
    (semver : SemanticVersion) (s t : String) (v w : Version) (i j : ℕ)
    → semver.parse_version s ≡ ok v
    → semver.parse_version t ≡ ok w
    → Rank v.prerelease i
    → Rank w.prerelease j
    → IsBounded v
    → IsBounded w
    → IsBefore v i w j
    → (m : ℤ) × (n : ℤ) × (get_version_number semver s ≡ ok m)
      × (get_version_number semver t ≡ ok n)
      × (m <ℤ n)
      × IsExact m
      × IsExact n
unfolding get_version_number
get_version_number-order semver s t v w i j pv pw ri rj bv bw h =
    let (d, (ev, d2, d1, dr)) = delta_of-IsPlaced ri in
    let (e, (ew, e2, e1, er)) = delta_of-IsPlaced rj in
    (
      pos (base_of v) +ℤ d,
      pos (base_of w) +ℤ e,
      rw pv (version_number-delta v d ev),
      rw pw (version_number-delta w e ew),
      +ℤ-order (base_of v) (base_of w) d e (
          base-order v w (pos_part d) (pos_part e) i j (neg_part d) (neg_part e) bv bw d1 e2 d2 e1
            dr er h),
      sum-IsExact (base_of v) d (base_of-bound v bv) d1 d2,
      sum-IsExact (base_of w) e (base_of-bound w bw) e1 e2,
    )
