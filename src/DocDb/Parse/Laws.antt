-- ===== src/DocDb/Parse/Laws.antt =====
-- Reading back the query texts that the backends write: `f"{key}={value}#{max_count}"`.
use Prim.Native.Char.{Char}
use Prim.Native.String.{[] as empty, ◌∷◌ as ◌▹◌}
use Prim.Native.String.append
use text.Mathlib.TextLemmas.{append_assoc}
use py_youwol.Prelude.{ℕ, String, ◌<>◌, ◌≡◌, refl, sym, ◌∙◌, ap, true, false}
use py_youwol.Prelude.{[], ◌∷◌, arith, ◌==◌, eq_iff, inl, inr, Bool-cases}
use py_youwol.Prelude.Exec.{ok}
use py_youwol.Prelude.Text.{
  has, split, int, str, has-append, split_of_lacks, split-append, cut_of_lacks, cut-append, int-str,
  has-str,
}
use py_youwol.DocDb.Models.{eq, QueryBody}
use py_youwol.DocDb.Parse.{parse, parse_clause}

-- None of the characters `@ # , < >` occurs.
pub record IsPlain (s : String) : Type 0 where
  pub no_at : has b'@' s ≡ false
  pub no_hash : has b'#' s ≡ false
  pub no_comma : has b',' s ≡ false
  pub no_less : has b'<' s ≡ false
  pub no_greater : has b'>' s ≡ false

-- `f"{key}={value}#{max_count}"`
abbrev pub query_text : String → String → ℕ → String
query_text key value max_count = key <> ("=" <> (value <> ("#" <> str max_count)))

abbrev pub equals_query : String → String → ℕ → QueryBody
equals_query key value max_count = record {
  max_results = max_count;
  select_clauses = [];
  query = record {
    where_clause = record { column = key; relation = eq; term = value } ∷ [];
    ordering_clause = [];
  };
}

one-append : (c : Char) (t : String) → (c ▹ empty) <> t ≡ c ▹ t
one-append c t = rw append.cons (rw append.nil)

str-ne-empty : (n : ℕ) → (str n == "") ≡ false
unfolding int
str-ne-empty n = elim (Bool-cases (str n == "")) [
  | inl e ↦ cc (int-str n, ap int ((eq_iff (str n) "").0 e))
  | inr ne ↦ ne
]

module _ (key value : String) (k : IsPlain key) (v : IsPlain value)
    (no_equals : has b'=' key ≡ false) where
  abbrev clause : String
  clause = key <> ("=" <> value)

  lacks :
      (c : ℕ) → has c key ≡ false → has c value ≡ false → has c "=" ≡ false → has c clause ≡ false
  lacks c hk hv he = rw (has-append, hk, has-append, he) hv

  parse_clause-clause :
      parse_clause clause ≡ ok (record { column = key; relation = eq; term = value })
  unfolding parse_clause has
  parse_clause-clause =
      let lt : Char = "<" in
      let gt : Char = ">" in
      ground (
        arith,
        cut_of_lacks gt "=" clause (lacks b'>' k.no_greater v.no_greater refl),
        cut_of_lacks gt empty clause (lacks b'>' k.no_greater v.no_greater refl),
        cut_of_lacks lt "=" clause (lacks b'<' k.no_less v.no_less refl),
        cut_of_lacks lt empty clause (lacks b'<' k.no_less v.no_less refl),
        one-append "=" value,
        cut-append "=" key value no_equals,
      )

  whole : (n : ℕ) → query_text key value n ≡ clause <> ("#" <> str n)
  whole n = sym (append_assoc key _ _ ∙ ap (λ t. key <> t) (append_assoc "=" value _))

  split-whole : (n : ℕ) → split b'#' (query_text key value n) ≡ (clause, str n ∷ [])
  unfolding has
  split-whole n =
      rw (whole n, one-append "#" (str n))
        (split-append b'#' clause "#" (str n) (lacks b'#' k.no_hash v.no_hash refl) refl
          ∙ ap (λ p. (clause, p.0 ∷ p.1))
              (split_of_lacks b'#' (str n) (has-str b'#' n (inl (omega arith)))))

  has_at : (n : ℕ) → has b'@' (query_text key value n) ≡ false
  unfolding has
  has_at n =
      rw (has-append, k.no_at, has-append, has-append, v.no_at, has-append)
        (has-str b'@' n (inr (omega arith)))

  has_hash : (n : ℕ) → has b'#' (query_text key value n) ≡ true
  unfolding has
  has_hash n = rw (has-append, k.no_hash, has-append, has-append, v.no_hash, has-append)

  has_equals : has b'=' clause ≡ true
  unfolding has
  has_equals = rw (has-append, no_equals, has-append)

  clause-ne-empty : (clause == "") ≡ false
  unfolding has
  clause-ne-empty = elim (Bool-cases (clause == "")) [
    | inl e ↦ cc (has_equals, ap (has b'=') ((eq_iff clause "").0 e))
    | inr ne ↦ ne
  ]

  -- The text `key=value#max`, for a key and a value without the characters `@ # , < >` and a key
  -- without `=`, is read back as one equation and its limit.
  pub parse-query_text : (n : ℕ) → parse (query_text key value n) ≡ ok (equals_query key value n)
  unfolding parse
  parse-query_text n =
      rw (has_at n, has_hash n, split-whole n, clause-ne-empty)
        (rw
          (split_of_lacks b',' clause (lacks b',' k.no_comma v.no_comma refl), parse_clause-clause)
          (rw (str-ne-empty n, int-str n)))
