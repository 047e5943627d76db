-- ===== src/Prelude/Exec/Keeps.antt =====
-- Invariants of stateful code, one rule for each way to build it.
use mathlib.Core.Path.{◌≡◌, refl, subst}
use mathlib.Core.Bool.{Bool, true, false}
use mathlib.Core.List.{List, [], ◌∷◌}
use py_youwol.Prelude.Tests.{if◌then◌else◌}
use py_youwol.Prelude.Lists.{All}
use py_youwol.Prelude.Exec.{
  Error, Result, ok, err, Exec, pure, raise, lift, ◌>>=◌, gather, continue,
}

-- Whether it returns or raises, `block` leaves a state with `P`, from one that has it.
pub record Keeps {S A : Type 0} (P : S → Type 0) (block : Exec S A) : Type 0 where
  pub at : (before : S) → P before → P (block before).1

-- A block that leaves the state alone keeps everything.
Keeps-still :
    {S A : Type 0} {P : S → Type 0} (block : Exec S A) → ((s : S) → s ≡ (block s).1) → Keeps P block
Keeps-still {P = P} block still = record { at = λ s. subst P (still s) }

pub Keeps-lift : {S A : Type 0} {P : S → Type 0} (r : Result A) → Keeps P (lift r)
unfolding lift
Keeps-lift r = Keeps-still (lift r) (λ s. refl)

pub Keeps-raise : {S A : Type 0} {P : S → Type 0} (e : Error) → Keeps P (raise {A = A} e)
unfolding raise
Keeps-raise e = Keeps-still (raise e) (λ s. refl)

pub Keeps-pure : {S A : Type 0} {P : S → Type 0} (a : A) → Keeps P (pure a)
unfolding pure
Keeps-pure a = Keeps-still (pure a) (λ s. refl)

pub Keeps-if :
    {S A : Type 0} {P : S → Type 0} (test : Bool) (yea nay : Exec S A)
    → Keeps P yea
    → Keeps P nay
    → Keeps P (if test then yea else nay)
Keeps-if false yea nay ky kn = kn
Keeps-if true yea nay ky kn = ky

module _ {S A B : Type 0} {P : S → Type 0} where
  continue-Keeps :
      (outcome : Result A) (rest : A → Exec S B) (s : S)
      → ((v : A) → Keeps P (rest v))
      → P s
      → P (continue outcome rest s).1
  continue-Keeps (ok v) rest s kr h = (kr v).at s h
  continue-Keeps (err e) rest s kr h = h

  pub Keeps-bind :
      (m : Exec S A) (rest : A → Exec S B)
      → Keeps P m
      → ((v : A) → Keeps P (rest v))
      → Keeps P (m >>= rest)
  unfolding ◌>>=◌
  Keeps-bind m rest km kr = record {
    at = λ s h. continue-Keeps (m s).0 rest (m s).1 kr (km.at s h);
  }

module _ {S A : Type 0} {P : S → Type 0} where
  pub Keeps-gather : (ms : List (Exec S A)) → All (Keeps P) ms → Keeps P (gather ms)
  unfolding gather
  Keeps-gather [] k = record { at = λ s h. h }
  Keeps-gather (m ∷ ms) k = record { at = λ s h. (Keeps-gather ms k.1).at _ (k.0.at s h) }

module _ {S A B : Type 0} {P : S → Type 0} where
  -- The rest of a block may use that `outcome` did not raise.
  pub Keeps-bind-lift :
      (outcome : Result A) (rest : A → Exec S B)
      → ((v : A) → outcome ≡ ok v → Keeps P (rest v))
      → Keeps P (lift outcome >>= rest)
  unfolding ◌>>=◌
  Keeps-bind-lift (ok v) rest k = record { at = λ s h. (k v refl).at s h }
  Keeps-bind-lift (err e) rest k = record { at = λ s h. h }

  continue-Keeps_with :
      {Q : A → Type 0} (outcome : Result A) (rest : A → Exec S B) (s : S)
      → ((v : A) → outcome ≡ ok v → Q v)
      → ((v : A) → Q v → Keeps P (rest v))
      → P s
      → P (continue outcome rest s).1
  continue-Keeps_with (ok v) rest s q kr h = (kr v (q v refl)).at s h
  continue-Keeps_with (err e) rest s q kr h = h

  -- The same with a fact `Q` of what `m` returns.
  pub Keeps-bind_with :
      {Q : A → Type 0} (m : Exec S A) (rest : A → Exec S B)
      → Keeps P m
      → ((s : S) → P s → (v : A) → (m s).0 ≡ ok v → Q v)
      → ((v : A) → Q v → Keeps P (rest v))
      → Keeps P (m >>= rest)
  unfolding ◌>>=◌
  Keeps-bind_with m rest km q kr = record {
    at = λ s h. continue-Keeps_with (m s).0 rest (m s).1 (q s h) kr (km.at s h);
  }
