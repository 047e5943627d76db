-- ===== src/Accounts/Laws/Keys.antt =====
-- The keys of the cache: those of tokens, of sessions and of flows are apart.
use Prim.Native.Char.{Char, code}
use Prim.Native.String.{◌∷◌}
use text.Mathlib.TextLemmas.{append_cancel_left, cons-append, head-eq_of_cons-eq}
use py_youwol.Prelude.{
  String, ◌<>◌, ◌≡◌, ◌∙◌, sym, ap, false, ◌==◌, eq_iff, arith, Bool-cases, inl, inr,
}
use py_youwol.Accounts.Tokens.{cache_token_key, cache_sid_key}
use py_youwol.Accounts.Flows.{auth_flow_key}

-- Texts after the same prefix.
behind : (prefix a b : String) → ((prefix <> a) == (prefix <> b)) ≡ (a == b)
behind prefix a b =
    ground (arith, eq_iff (prefix <> a) (prefix <> b), eq_iff a b, append_cancel_left prefix a b)

pub same_token_key : (a b : String) → (cache_token_key a == cache_token_key b) ≡ (a == b)
unfolding cache_token_key
same_token_key a b = behind "tokens" ("_" <> a) ("_" <> b) ∙ behind "_" a b

pub same_sid_key : (a b : String) → (cache_sid_key a == cache_sid_key b) ≡ (a == b)
unfolding cache_sid_key
same_sid_key a b = behind "sid" ("_" <> a) ("_" <> b) ∙ behind "_" a b

-- Texts whose first characters differ.
apart :
    (c d : Char) (s t a b : String)
    → (code c ≡ code d → ⊥)
    → (((c ∷ s) <> a) == ((d ∷ t) <> b)) ≡ false
apart c d s t a b differ = elim (Bool-cases (((c ∷ s) <> a) == ((d ∷ t) <> b))) [
  | inr n ↦ n
  | inl e ↦
      let same = (eq_iff ((c ∷ s) <> a) ((d ∷ t) <> b)).0 e in
      absurd
        (differ (ap code (head-eq_of_cons-eq (sym (cons-append c s a) ∙ same ∙ cons-append d t b))))
]

pub token_sid : (a b : String) → (cache_token_key a == cache_sid_key b) ≡ false
unfolding cache_token_key cache_sid_key
token_sid a b = apart "t" "s" "okens" "id" ("_" <> a) ("_" <> b) (λ e. omega arith)

pub sid_token : (a b : String) → (cache_sid_key a == cache_token_key b) ≡ false
unfolding cache_token_key cache_sid_key
sid_token a b = apart "s" "t" "id" "okens" ("_" <> a) ("_" <> b) (λ e. omega arith)

pub token_flow : (a b : String) → (cache_token_key a == auth_flow_key b) ≡ false
unfolding cache_token_key auth_flow_key
token_flow a b = apart "t" "a" "okens" "uth_flow_state" ("_" <> a) ("_" <> b) (λ e. omega arith)

pub sid_flow : (a b : String) → (cache_sid_key a == auth_flow_key b) ≡ false
unfolding cache_sid_key auth_flow_key
sid_flow a b = apart "s" "a" "id" "uth_flow_state" ("_" <> a) ("_" <> b) (λ e. omega arith)
