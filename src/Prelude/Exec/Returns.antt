-- ===== src/Prelude/Exec/Returns.antt =====
-- Inversion of blocks that return.
use mathlib.Core.Path.{◌≡◌, refl}
use py_youwol.Prelude.Exec.{Error, Result, ok, err, Exec, ◌>>=◌, continue}
use mathlib.Core.Logic.{◌⊎◌, inl, inr}

module _ {S A B : Type 0} (f : A → Exec S B) where
  continue_returned :
      (r : Result A) (s : S) {b : B}
      → (continue r f s).0 ≡ ok b
      → (a : A) × (r ≡ ok a) × (continue r f s ≡ f a s)
  continue_returned (ok a) s e = (a, refl, refl)
  continue_returned (err x) s e = cc

  -- A block that returns runs its first part, and then the rest on what that returned.
  pub bind_returned :
      (m : Exec S A) (s : S) {b : B}
      → ((m >>= f) s).0 ≡ ok b
      → (a : A) × ((m s).0 ≡ ok a) × ((m >>= f) s ≡ f a (m s).1)
  unfolding ◌>>=◌
  bind_returned m s e = continue_returned (m s).0 (m s).1 e

-- To split on a result and keep the equation.
pub Result-cases {ℓ} :
    {A : Type ℓ} (r : Result A) → ((a : A) × (r ≡ ok a)) ⊎ ((e : Error) × (r ≡ err e))
Result-cases (ok a) = inl (a, refl)
Result-cases (err e) = inr (e, refl)
