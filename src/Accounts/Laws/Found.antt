-- ===== src/Accounts/Laws/Found.antt =====
-- What the storage of tokens finds, and how the state of the cache is left.
use py_youwol.Prelude.{
  ℕ, String, ◌≤◌, ◌≡◌, refl, ◌∙◌, none, some, Option, eq_refl, arith, Option-cases, inl, inr,
}
use py_youwol.Prelude.Dict.{get as find}
use py_youwol.Prelude.Exec.{key_error, Result, ok, err}
use py_youwol.Cache.{Json, string, object, LocalCacheClient, get, delete, name_to_key}
use py_youwol.Cache.Laws.{get-delete}
use py_youwol.Accounts.Tokens.{
  TokensData, seconds, read_tokens, recovered, emptied, cache_token_key, cache_sid_key,
  found_tokens, get_tokens, delete_tokens,
}
use py_youwol.Accounts.Laws.Keys.{sid_token}

-- An entry that has expired stays so.
pub get-later :
    (now later : ℕ) (key : String) (c : LocalCacheClient)
    → now ≤ later
    → get now key c ≡ none
    → get later key c ≡ none
unfolding get
get-later now later key c after gone =
    elim (Option-cases (find (name_to_key c.prefix key) c.cache)) [
      | inl n ↦ rw (n, get) refl
      | inr (entry, e) ↦ ground (arith, rw (e, get) at gone)
    ]

pub get-deleted :
    (later : ℕ) (key : String) (c : LocalCacheClient) → get later key (delete key c) ≡ none
get-deleted later key c = get-delete later key key c ∙ rw (eq_refl key) refl

emptied-some :
    (key : String) (r : Result TokensData) (c : LocalCacheClient) (d : TokensData)
    → recovered r ≡ ok (some d)
    → emptied key r c ≡ c
emptied-some key (ok t) c d e = refl
emptied-some key (err key_error) c d e = cc
emptied-some key (err x) c d e = refl

emptied-none :
    (later : ℕ) (key : String) (r : Result TokensData) (c : LocalCacheClient)
    → recovered r ≡ ok none
    → get later key (emptied key r c) ≡ none
emptied-none later key (ok t) c e = cc
emptied-none later key (err key_error) c e = get-deleted later key c
emptied-none later key (err x) c e = cc

-- Tokens that are found stay as they are.
found_some :
    (key : String) (j : Option Json) (c : LocalCacheClient) (d : TokensData)
    → (found_tokens key j c).0 ≡ ok (some d)
    → (found_tokens key j c).1 ≡ c
found_some key none c d e = refl
found_some key (some (string s)) c d e = refl
found_some key (some (object fields)) c d e = emptied-some key (read_tokens fields) c d e

found_none :
    (now later : ℕ) (key : String) (j : Option Json) (c : LocalCacheClient)
    → get now key c ≡ j
    → now ≤ later
    → (found_tokens key j c).0 ≡ ok none
    → get later key (found_tokens key j c).1 ≡ none
found_none now later key none c g after e = get-later now later key c after g
found_none now later key (some (string s)) c g after e = cc
found_none now later key (some (object fields)) c g after e =
    emptied-none later key (read_tokens fields) c e

-- Tokens whose key holds nothing are not found.
pub get_tokens-none :
    (later : ℕ) (id : String) (c : LocalCacheClient)
    → get (seconds later) (cache_token_key id) c ≡ none
    → get_tokens later id c ≡ (ok none, c)
unfolding get_tokens
get_tokens-none later id c g = rw g refl

-- The key of tokens that are deleted.
pub get-delete_tokens :
    (later : ℕ) (id sid : String) (c : LocalCacheClient)
    → get later (cache_token_key id) (delete_tokens id sid c).1 ≡ none
unfolding delete_tokens
get-delete_tokens later id sid c =
    get-delete later (cache_sid_key sid) (cache_token_key id) (delete (cache_token_key id) c)
    ∙ rw (sid_token sid id) (get-deleted later (cache_token_key id) c)

module _ (now : ℕ) where
  pub get_tokens-some :
      (id : String) (c : LocalCacheClient) (d : TokensData)
      → (get_tokens now id c).0 ≡ ok (some d)
      → (get_tokens now id c).1 ≡ c
  unfolding get_tokens
  get_tokens-some id c d e =
      found_some (cache_token_key id) (get (seconds now) (cache_token_key id) c) c d e

  pub get_tokens_gone :
      (later : ℕ) (id : String) (c : LocalCacheClient)
      → now ≤ later
      → (get_tokens now id c).0 ≡ ok none
      → get (seconds later) (cache_token_key id) (get_tokens now id c).1 ≡ none
  unfolding get_tokens
  get_tokens_gone later id c after e =
      found_none (seconds now) (seconds later) (cache_token_key id)
        (get (seconds now) (cache_token_key id) c) c refl (omega arith) e
