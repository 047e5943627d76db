-- ===== src/Prelude/Text/Laws.antt =====
-- Laws of searching and splitting, for texts that lack the separator.
use Prim.Native.Nat.{ℕ}
use Prim.Native.Char.{Char, code}
use Prim.Native.String.{String, [] as empty, ◌∷◌ as ◌▹◌, ◌++◌ as ◌<>◌}
use Prim.Native.String.append
use mathlib.Core.Path.{◌≡◌, refl}
use mathlib.Core.Bool.{Bool, true, false}
use mathlib.Core.Option.{Option, none, some}
use mathlib.Core.List.{[], ◌∷◌}
use native.Mathlib.Omega.{arith}
use py_youwol.Prelude.Tests.{if◌then◌else◌}
use py_youwol.Prelude.Text.Defs.{has, split, strip_prefix, cut, cut_step, contains}

pub has-append : (k : ℕ) (s t : String) → has k (s <> t) ≡ (if has k s then true else has k t)
unfolding has
has-append k empty t = rw append.nil
has-append k (c ▹ s) t = rw append.cons (ground (arith, has-append k s t))

pub split_of_lacks : (k : ℕ) (s : String) → has k s ≡ false → split k s ≡ (s, [])
unfolding has split
split_of_lacks k empty h = refl
split_of_lacks k (c ▹ s) h = ground (arith, split_of_lacks k s)

-- The first separator ends the first part.
pub split-append :
    (k : ℕ) (s : String) (c : Char) (t : String)
    → has k s ≡ false
    → code c ≡ k
    → split k (s <> (c ▹ t)) ≡ (s, (split k t).0 ∷ (split k t).1)
unfolding has split
split-append k empty c t h e = rw append.nil (ground arith)
split-append k (d ▹ s) c t h e = rw append.cons (ground (arith, split-append k s c t))

-- A symbol whose first letter does not occur is not found.
pub cut_of_lacks : (c : Char) (p s : String) → has (code c) s ≡ false → cut (c ▹ p) s ≡ none
unfolding has cut
cut_of_lacks c p empty h = refl
cut_of_lacks c p (d ▹ s) h = ground (arith, cut_of_lacks c p s)

-- A symbol of one letter is found behind a text that lacks it.
pub cut-append :
    (c : Char) (s t : String)
    → has (code c) s ≡ false
    → cut (c ▹ empty) (s <> (c ▹ t)) ≡ some (s, t)
unfolding has cut
cut-append c empty t h = rw append.nil (ground arith)
cut-append c (d ▹ s) t h = rw append.cons (ground (arith, cut-append c s t))

strip_prefix_self : (p : String) → strip_prefix p p ≡ some empty
unfolding strip_prefix
strip_prefix_self empty = refl
strip_prefix_self (c ▹ p) = ground (arith, strip_prefix_self p)

abbrev is_cut : Option (String × String) → Bool
is_cut o = elim o [ none ↦ false | some p ↦ true ]

cut_step-later :
    (c : Char) (here : Option String) (later : Option (String × String))
    → is_cut later ≡ true
    → is_cut (cut_step c here later) ≡ true
cut_step-later c (some rest) later h = refl
cut_step-later c none (some p) h = refl
cut_step-later c none none h = h

cut_step-here :
    (c : Char) (here : Option String) (later : Option (String × String)) (rest : String)
    → here ≡ some rest
    → is_cut (cut_step c here later) ≡ true
cut_step-here c (some r) later rest h = refl
cut_step-here c none later rest h = cc

-- A text holds what it ends with.
pub contains-append : (c : Char) (p s : String) → contains (c ▹ p) (s <> (c ▹ p)) ≡ true
unfolding cut
contains-append c p empty = rw append.nil (
    cut_step-here c (strip_prefix (c ▹ p) (c ▹ p)) (cut (c ▹ p) p) empty
      (strip_prefix_self (c ▹ p)))
contains-append c p (d ▹ s) = rw append.cons (
    cut_step-later d (strip_prefix (c ▹ p) (d ▹ (s <> (c ▹ p)))) (cut (c ▹ p) (s <> (c ▹ p)))
      (contains-append c p s))
