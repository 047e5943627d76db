-- ===== src/Assets/Laws/Members.antt =====
-- Lists with the same members, as `list(set(...))` has them in any order.
use py_youwol.Prelude.{
  String, Bool, true, inl, inr, Bool-cases, ◌≡◌, refl, sym, ◌∙◌, List, [], ◌∷◌, arith, any, All,
  ◌==◌, eq_iff, eq_refl,
}
use mathlib.Core.Path.{subst}
use py_youwol.Prelude.Dict.{member}

-- `list(set(...))` has the members of the list.
pub record IsDistinct (distinct : List String → List String) : Type 0 where
  pub members : (x : String) (xs : List String) → member x (distinct xs) ≡ member x xs

pub any_of_member :
    (p : String → Bool) (x : String) (xs : List String)
    → member x xs ≡ true
    → p x ≡ true
    → any p xs ≡ true
any_of_member p x [] m h = cc
any_of_member p x (y ∷ xs) m h = elim (Bool-cases (y == x)) [
  | inl t ↦ rw ((eq_iff y x).0 t, h) refl
  | inr n ↦ ground (arith, any_of_member p x xs)
]

member_of_any :
    (p : String → Bool) (xs : List String)
    → any p xs ≡ true
    → (x : String) × (member x xs ≡ true) × (p x ≡ true)
member_of_any p [] h = cc
member_of_any p (y ∷ xs) h = elim (Bool-cases (p y)) [
  | inl t ↦ (y, ground (arith, eq_refl y), t)
  | inr n ↦ let (x, m, e) = member_of_any p xs (rw n at h) in (x, ground arith, e)
]

any-eq_of_members :
    (p : String → Bool) (xs ys : List String)
    → ((x : String) → member x xs ≡ member x ys)
    → any p xs ≡ any p ys
any-eq_of_members p xs ys h = elim (Bool-cases (any p xs)) [
  | inl t ↦ let (x, m, e) = member_of_any p xs t in t ∙ sym (any_of_member p x ys (sym (h x) ∙ m) e)
  | inr n ↦ elim (Bool-cases (any p ys)) [
    | inl t ↦ let (x, m, e) = member_of_any p ys t in any_of_member p x xs (h x ∙ m) e ∙ sym t
    | inr k ↦ n ∙ sym k
  ]
]

pub any-distinct :
    {distinct : List String → List String}
    → IsDistinct distinct
    → (p : String → Bool) (xs : List String) → any p (distinct xs) ≡ any p xs
any-distinct d p xs = any-eq_of_members p _ xs (λ x. d.members x xs)

module _ (P : String → Type 0) where
  All-at : (x : String) (xs : List String) → member x xs ≡ true → All P xs → P x
  All-at x [] m a = cc
  All-at x (y ∷ xs) m a = elim (Bool-cases (y == x)) [
    | inl t ↦ subst P ((eq_iff y x).0 t) a.0
    | inr n ↦ All-at x xs (rw n at m) a.1
  ]

  All-intro : (xs : List String) → ((x : String) → member x xs ≡ true → P x) → All P xs
  All-intro [] h = tt
  All-intro (y ∷ xs) h = (h y (ground (arith, eq_refl y)), All-intro xs (λ x m. h x (ground arith)))

  pub All-distinct :
      {distinct : List String → List String}
      → IsDistinct distinct
      → (xs : List String) → All P xs
      → All P (distinct xs)
  All-distinct d xs a = All-intro _ (λ x m. All-at x xs (sym (d.members x xs) ∙ m) a)
