-- ===== src/Accounts/Laws/Storage.antt =====
-- What the storage of tokens promises, over the cache.
use py_youwol.Prelude.{
  ℕ, String, ◌≡◌, refl, ◌∙◌, none, some, Option, ltb, if◌then◌else◌, ◌==◌, eq_refl, Bool-cases, inl,
  inr,
}
use py_youwol.Prelude.Exec.{ok, ◌>>=◌, pure}
use py_youwol.Cache.{Json, string, object, at, LocalCacheClient, get, set}
use py_youwol.Cache.Laws.{get-set}
use py_youwol.Accounts.Tokens.{
  TokensData, seconds, read_tokens, write_tokens, cache_token_key, cache_sid_key, found_tokens,
  get_tokens, found_session, get_by_sid, store,
}
use py_youwol.Accounts.Laws.Keys.{same_token_key, same_sid_key, token_sid, sid_token}

read_tokens-write_tokens : (d : TokensData) → read_tokens (write_tokens d) ≡ ok d
unfolding read_tokens write_tokens
read_tokens-write_tokens d = refl

-- What is cached for tokens after `store`.
get_key-store :
    (now later : ℕ) (tokens_id other : String) (d : TokensData) (c : LocalCacheClient)
    → get later (cache_token_key other) (store now tokens_id d c).1 ≡ (
        if tokens_id == other
        then (if ltb later (seconds d.refresh_expires_at)
            then some (object (write_tokens d))
            else none)
        else get later (cache_token_key other) c)
unfolding store
get_key-store now later tokens_id other d c =
    let expire = at (seconds d.refresh_expires_at) in
    let with_tokens =
      set (seconds now) (cache_token_key tokens_id) (object (write_tokens d)) expire c in
    get-set (seconds now) later (cache_sid_key d.session_state) (cache_token_key other)
      (string tokens_id) expire with_tokens
    ∙ rw
        (
          sid_token d.session_state other,
          get-set (seconds now) later (cache_token_key tokens_id) (cache_token_key other)
              (object (write_tokens d)) expire c,
          same_token_key tokens_id other,
        )
        refl

-- What is cached for a session after `store`.
pub get_sid-store :
    (now later : ℕ) (tokens_id sid : String) (d : TokensData) (c : LocalCacheClient)
    → get later (cache_sid_key sid) (store now tokens_id d c).1 ≡ (
        if d.session_state == sid
        then (if ltb later (seconds d.refresh_expires_at) then some (string tokens_id) else none)
        else get later (cache_sid_key sid) c)
unfolding store
get_sid-store now later tokens_id sid d c =
    let expire = at (seconds d.refresh_expires_at) in
    let with_tokens =
      set (seconds now) (cache_token_key tokens_id) (object (write_tokens d)) expire c in
    get-set (seconds now) later (cache_sid_key d.session_state) (cache_sid_key sid)
      (string tokens_id) expire with_tokens
    ∙ rw
        (
          same_sid_key d.session_state sid,
          get-set (seconds now) later (cache_token_key tokens_id) (cache_sid_key sid)
              (object (write_tokens d)) expire c,
          token_sid tokens_id sid,
        )
        refl

-- What is found does not depend on the other entries.
found-state :
    (key : String) (j : Option Json) (b c : LocalCacheClient)
    → (found_tokens key j b).0 ≡ (found_tokens key j c).0
found-state key none b c = refl
found-state key (some (string s)) b c = refl
found-state key (some (object fields)) b c = refl

-- After tokens are stored, they are read by their identifier until the second in which they cannot
-- be refreshed any more, and not from then on; other tokens read as before.
pub get_tokens-store :
    (now later : ℕ) (tokens_id other : String) (d : TokensData) (c : LocalCacheClient)
    → (get_tokens later other (store now tokens_id d c).1).0 ≡ (
        if tokens_id == other
        then ok (if ltb (seconds later) (seconds d.refresh_expires_at) then some d else none)
        else (get_tokens later other c).0)
unfolding get_tokens
get_tokens-store now later tokens_id other d c =
    let key = get_key-store now (seconds later) tokens_id other d c in
    elim (Bool-cases (tokens_id == other)) [
      | inr n ↦ rw (key, n) (found-state _ _ _ _)
      | inl t ↦ elim (Bool-cases (ltb (seconds later) (seconds d.refresh_expires_at))) [
        | inl l ↦ rw (key, t, l, found_tokens, read_tokens-write_tokens d) refl
        | inr l ↦ rw (key, t, l) refl
      ]
    ]

-- After tokens are stored, the session that they are for reads them for as long as they are kept,
-- whatever the session had before, and nothing from then on.
pub get_by_sid-store :
    (now later : ℕ) (tokens_id : String) (d : TokensData) (c : LocalCacheClient)
    → (get_by_sid later d.session_state (store now tokens_id d c).1).0
      ≡ ok (
          if ltb (seconds later) (seconds d.refresh_expires_at)
          then (some tokens_id, some d)
          else (none, none))
unfolding get_by_sid ◌>>=◌ pure
get_by_sid-store now later tokens_id d c =
    let sid = get_sid-store now (seconds later) tokens_id d.session_state d c in
    let tokens = get_tokens-store now later tokens_id tokens_id d c in
    elim (Bool-cases (ltb (seconds later) (seconds d.refresh_expires_at))) [
      | inl l ↦
          rw (sid, eq_refl d.session_state, l, found_session, tokens, eq_refl tokens_id, l) refl
      | inr l ↦ rw (sid, eq_refl d.session_state, l) refl
    ]
