-- ===== src/Prelude/Text/Defs.antt =====
-- Search and splitting of texts: `in`, `find`, `split` of Python's `str`.
use Prim.Native.Nat.{ℕ, zero, suc}
use Prim.Native.Char.{Char, code}
use Prim.Native.String.{String, [] as empty, ◌∷◌ as ◌▹◌, ◌++◌ as ◌<>◌}
use mathlib.Core.Bool.{Bool, true, false}
use mathlib.Core.Option.{Option, none, some}
use mathlib.Core.List.{List, [], ◌∷◌}
use py_youwol.Prelude.Tests.{eqb, if◌then◌else◌}

-- `chr(k) in s`
unfoldable pub has : ℕ → String → Bool
has k empty = false
has k (c ▹ s) = if eqb (code c) k then true else has k s

-- The parts of a split, of which there is at least one.
abbrev pub Parts : Type 0
Parts = String × List String

abbrev pub split_step : ℕ → Char → Parts → Parts
split_step k c (w, ws) = if eqb (code c) k then (empty, w ∷ ws) else (c ▹ w, ws)

-- `s.split(chr(k))`
unfoldable pub split : ℕ → String → Parts
split k empty = (empty, [])
split k (c ▹ s) = split_step k c (split k s)

-- `s[len(p):]` if `s` begins with `p`
unfoldable pub strip_prefix : String → String → Option String
strip_prefix empty s = some s
strip_prefix (c ▹ p) empty = none
strip_prefix (c ▹ p) (d ▹ s) = if eqb (code d) (code c) then strip_prefix p s else none

abbrev pub cut_step : Char → Option String → Option (String × String) → Option (String × String)
cut_step c (some rest) later = some (empty, rest)
cut_step c none (some (a, b)) = some (c ▹ a, b)
cut_step c none none = none

-- The text before and after the first occurrence of `symbol`; `none` if `symbol not in s`.
unfoldable pub cut : String → String → Option (String × String)
unfolding strip_prefix
cut symbol empty = none
cut symbol (c ▹ s) = cut_step c (strip_prefix symbol (c ▹ s)) (cut symbol s)

-- `symbol in s`
abbrev pub contains : String → String → Bool
contains symbol s = elim (cut symbol s) [ none ↦ false | some p ↦ true ]

-- `len(s)`
unfoldable pub size : String → ℕ
size empty = 0
size (c ▹ s) = suc (size s)

-- `s[0:n]`
unfoldable pub slice_to : ℕ → String → String
slice_to zero s = empty
slice_to (suc n) empty = empty
slice_to (suc n) (c ▹ s) = c ▹ slice_to n s

-- `sep.join(words)`
unfoldable pub join : String → List String → String
join sep [] = empty
join sep (w ∷ []) = w
join sep (w ∷ v ∷ ws) = w <> (sep <> join sep (v ∷ ws))
