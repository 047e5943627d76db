-- ===== src/Prelude/Text/Decimal.antt =====
-- `int(s)` and `str(n)` of Python on decimal numerals.
use Prim.Native.Nat.{ℕ, zero, suc, ◌+◌, ◌-◌, ◌*◌, ◌/◌, ◌%◌, ◌<◌}
use Prim.Native.Char.{Char, code}
use Prim.Native.String.{String, [] as empty, ◌∷◌ as ◌▹◌}
use mathlib.Core.Path.{◌≡◌, refl, ◌∙◌}
use mathlib.Core.Logic.{◌⊎◌, inl, inr}
use mathlib.Core.Bool.{Bool, true, false, ◌&&◌}
use mathlib.Core.Option.{Option, none, some}
use native.Mathlib.Omega.{arith}
use py_youwol.Prelude.Tests.{ltb, leb, if◌then◌else◌, Bool-cases}
use py_youwol.Prelude.Text.Defs.{has}

int_from : Bool → ℕ → String → Option ℕ
int_from seen n empty = if seen then some n else none
int_from seen n (c ▹ s) =
    let rest = int_from true (n * 10 + (code c - 48)) s in
    if leb 48 (code c) && leb (code c) 57 then rest else none

-- `int(s)`, for a text of digits; `none` stands for the `ValueError` of every other text.
unfoldable pub int : String → Option ℕ
unfolding int_from
int s = int_from false 0 s

digit : ℕ → Char
digit zero = "0"
digit (suc zero) = "1"
digit (suc (suc zero)) = "2"
digit (suc (suc (suc zero))) = "3"
digit (suc (suc (suc (suc zero)))) = "4"
digit (suc (suc (suc (suc (suc zero))))) = "5"
digit (suc (suc (suc (suc (suc (suc zero)))))) = "6"
digit (suc (suc (suc (suc (suc (suc (suc zero))))))) = "7"
digit (suc (suc (suc (suc (suc (suc (suc (suc zero)))))))) = "8"
digit (suc (suc (suc (suc (suc (suc (suc (suc (suc d))))))))) = "9"

code-digit : (d : ℕ) → d < 10 → code (digit d) ≡ 48 + d
unfolding digit
code-digit zero h = refl
code-digit (suc zero) h = refl
code-digit (suc (suc zero)) h = refl
code-digit (suc (suc (suc zero))) h = refl
code-digit (suc (suc (suc (suc zero)))) h = refl
code-digit (suc (suc (suc (suc (suc zero))))) h = refl
code-digit (suc (suc (suc (suc (suc (suc zero)))))) h = refl
code-digit (suc (suc (suc (suc (suc (suc (suc zero))))))) h = refl
code-digit (suc (suc (suc (suc (suc (suc (suc (suc zero)))))))) h = refl
code-digit (suc (suc (suc (suc (suc (suc (suc (suc (suc zero))))))))) h = refl
code-digit (suc (suc (suc (suc (suc (suc (suc (suc (suc (suc d)))))))))) h = absurd (omega arith)

print : ℕ → ℕ → String → String
print zero n rest = rest
print (suc f) n rest =
    let more = print f (n / 10) (digit (n % 10) ▹ rest) in if ltb n 10 then digit n ▹ rest else more

-- `str(n)`. A number has at most as many digits as its value, plus one.
unfoldable pub str : ℕ → String
unfolding print digit
str n = print (suc n) n empty

int_from-digit :
    (b : Bool) (n d : ℕ) (s : String)
    → d < 10
    → int_from b n (digit d ▹ s) ≡ int_from true (n * 10 + d) s
unfolding int_from
int_from-digit b n d s h = ground (arith, code-digit d h)

int_from-print :
    (f n : ℕ) (b : Bool) (s : String) → n < f → int_from b 0 (print f n s) ≡ int_from true n s
unfolding print
int_from-print zero n b s h = elim h [ ]
int_from-print (suc f) n b s h = elim (Bool-cases (ltb n 10)) [
  | inl small ↦ rw small (ground (arith, int_from-digit b 0 n s))
  | inr large ↦ rw large (
      ground (
        arith,
        int_from-print f (n / 10) b (digit (n % 10) ▹ s),
        int_from-digit true (n / 10) (n % 10) s,
      ))
]

-- Reading back what was printed.
pub int-str : (n : ℕ) → int (str n) ≡ some n
unfolding int str
int-str n = int_from-print (suc n) n false empty (omega arith) ∙ unfold int_from in refl

has-print : (k f n : ℕ) (s : String) → (k < 48) ⊎ (57 < k) → has k (print f n s) ≡ has k s
unfolding print has
has-print k zero n s h = refl
has-print k (suc f) n s h =
    ground (arith, code-digit n, code-digit (n % 10), has-print k f (n / 10) (digit (n % 10) ▹ s))

-- A printed number has digits only.
pub has-str : (k n : ℕ) → (k < 48) ⊎ (57 < k) → has k (str n) ≡ false
unfolding str
has-str k n h = has-print k (suc n) n empty h ∙ unfold has in refl
