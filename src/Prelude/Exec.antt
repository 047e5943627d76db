-- ===== src/Prelude/Exec.antt =====
-- Code that reads and writes a state and may raise. What was written before a raise stays written,
-- so the state comes back beside the error too.
pub mod Keeps
pub mod Returns
use Prim.Native.Nat.{ℕ}
use Prim.Native.String.{String}
use mathlib.Core.Path.{◌≡◌, refl, subst}
use mathlib.Core.Bool.{Bool, true, false}
use mathlib.Core.List.{List, [], ◌∷◌}

-- The exceptions that the modelled code raises: FastAPI's `HTTPException` by its status code,
-- Python's own by their class.
pub data Error : Type 0 where
  http : ℕ → Error
  key_error value_error runtime_error type_error : Error
  -- `CircularDependencies`: the queries not found, by the library that makes them; a query is its
  -- name and its version.
  circular_dependencies : List (String × List (String × String)) → Error
  -- No exception of the program: the code runs on, in a way that is not modelled.
  unmodelled : Error
  -- No exception of the program: the fuel of a loop of the model ran out.
  out_of_fuel : Error

pub data Result {ℓ} (A : Type ℓ) : Type ℓ where
  ok : A → Result A
  err : Error → Result A

-- The rest of a block, behind a result.
abbrev pub then_ok {ℓ κ} : {A : Type ℓ} {B : Type κ} → Result A → (A → Result B) → Result B
then_ok (ok a) f = f a
then_ok (err e) f = err e

pub ok-injective {ℓ} : {A : Type ℓ} {a b : A} → ok a ≡ ok b → a ≡ b
ok-injective e = cc

-- Inversion of a block that returned.
pub then_ok-eq-ok {ℓ κ} :
    {A : Type ℓ} {B : Type κ} (r : Result A) (f : A → Result B) {b : B}
    → then_ok r f ≡ ok b
    → (a : A) × (r ≡ ok a) × (f a ≡ ok b)
then_ok-eq-ok (ok a) f e = (a, refl, e)
then_ok-eq-ok (err x) f e = cc

-- The same, for `do` blocks; it stays shut where a block is taken apart by rules.
unfoldable pub bind_ok {ℓ κ} : {A : Type ℓ} {B : Type κ} → Result A → (A → Result B) → Result B
bind_ok r f = then_ok r f

-- What holds of a block's value, if it returns one.
pub record Gives {ℓ κ} {A : Type ℓ} (P : A → Type κ) (r : Result A) : Type (ℓ ⊔ κ) where
  pub at : (a : A) → r ≡ ok a → P a

module _ {ℓ κ} {A : Type ℓ} {P : A → Type κ} where
  pub Gives-ok : (a : A) → P a → Gives P (ok a)
  Gives-ok a h = record { at = λ b e. subst P (ok-injective e) h }

  pub Gives-bind {ι} :
      {B : Type ι} (r : Result B) (f : B → Result A)
      → ((b : B) → Gives P (f b))
      → Gives P (bind_ok r f)
  unfolding bind_ok
  Gives-bind (ok b) f h = h b
  Gives-bind (err x) f h = record { at = λ a e. cc }

abbrev pub Exec : Type 0 → Type 0 → Type 0
Exec S A = S → Result A × S

module _ {S : Type 0} where
  unfoldable pub pure : {A : Type 0} → A → Exec S A
  pure a s = (ok a, s)

  unfoldable pub raise : {A : Type 0} → Error → Exec S A
  raise e s = (err e, s)

  unfoldable pub lift : {A : Type 0} → Result A → Exec S A
  lift r s = (r, s)

  abbrev pub continue : {A B : Type 0} → Result A → (A → Exec S B) → Exec S B
  continue (ok a) f s = f a s
  continue (err e) f s = (err e, s)

  infixl 10 ◌>>=◌ ◌>>◌
  unfoldable pub ◌>>=◌ : {A B : Type 0} → Exec S A → (A → Exec S B) → Exec S B
  unfolding pure raise lift
  ◌>>=◌ m f s = continue (m s).0 f (m s).1

  abbrev pub ◌>>◌ : {A B : Type 0} → Exec S A → Exec S B → Exec S B
  m >> n = m >>= λ _. n

  -- `asyncio.gather(*tasks)`: every task runs, in order; the first exception is raised at the end.
  unfoldable pub gather : {A : Type 0} → List (Exec S A) → Exec S (List A)
  gather [] s = (ok [], s)
  gather (m ∷ ms) s =
      let (r, t) = m s in
      let (rs, u) = gather ms t in (then_ok r (λ a. then_ok rs (λ as'. ok (a ∷ as'))), u)
