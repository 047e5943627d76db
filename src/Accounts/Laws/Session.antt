-- ===== src/Accounts/Laws/Session.antt =====
-- Which tokens a session leads to, and what restoring it leaves of that.
use py_youwol.Prelude.{
  ℕ, String, ◌≡◌, refl, ◌∙◌, ◌⊎◌, ap, false, none, some, Option, ltb, ◌==◌, Bool-cases,
  Option-cases, inl, inr,
}
use py_youwol.Prelude.Dict.{get as find}
use py_youwol.Prelude.Exec.{ok, ◌>>=◌, pure, raise}
use py_youwol.Prelude.Exec.Returns.{bind_returned}
use py_youwol.Cache.{Json, string, object, LocalCacheClient, get, name_to_key}
use py_youwol.Accounts.Tokens.{
  TokensData, SessionTokens, seconds, cache_token_key, cache_sid_key, get_tokens, OidcClient,
  Tokens, restore_tokens, found_session, get_by_sid, restore_session,
  restore_tokens_from_session_id,
}
use py_youwol.Accounts.Laws.Found.{get_tokens-none, get_tokens-some}
use py_youwol.Accounts.Laws.Storage.{get_sid-store}
use py_youwol.Accounts.Laws.Restore.{restore_tokens-IsRestored}

-- At that second the session leads to these tokens or to nothing.
abbrev pub LeadsTo : ℕ → String → String → LocalCacheClient → Type 0
LeadsTo later sid id c =
    (get later (cache_sid_key sid) c ≡ some (string id)) ⊎ (get later (cache_sid_key sid) c ≡ none)

-- An entry keeps its value for as long as it is there.
get-once :
    (now later : ℕ) (sid id : String) (c : LocalCacheClient)
    → get now (cache_sid_key sid) c ≡ some (string id)
    → LeadsTo later sid id c
unfolding get
get-once now later sid id c e =
    elim (Option-cases (find (name_to_key c.prefix (cache_sid_key sid)) c.cache)) [
      | inl n ↦ cc (rw (n, get) at e)
      | inr (entry, f) ↦ elim (Bool-cases (ltb now entry.expire_at)) [
        | inr gone ↦ cc (rw (f, gone, get) at e)
        | inl there ↦
            let value : some entry.value ≡ some (string id) = rw (f, there, get) at e in
            elim (Bool-cases (ltb later entry.expire_at)) [
              | inr l ↦ inr (rw (f, l, get) refl)
              | inl l ↦ inl (rw (f, l, get) value)
            ]
      ]
    ]

module _ (oidc : OidcClient) where
  -- A session whose tokens are gone restores nothing.
  pub ended :
      (later : ℕ) (sid id : String) (c : LocalCacheClient)
      → get (seconds later) (cache_token_key id) c ≡ none
      → LeadsTo (seconds later) sid id c
      → (restore_tokens_from_session_id oidc later sid c).0 ≡ ok none
  unfolding restore_tokens_from_session_id get_by_sid ◌>>=◌ pure
  ended later sid id c gone (inl e) = rw (e, found_session, get_tokens-none later id c gone) refl
  ended later sid id c gone (inr e) = rw (e, found_session) refl

module _ (now : ℕ) where
  session_found :
      (id : String) (d : TokensData) (j : Option Json) (c : LocalCacheClient)
      → (found_session now j c).0 ≡ ok (some id, some d)
      → (j ≡ some (string id)) × ((found_session now j c).1 ≡ c)
  unfolding pure raise
  session_found id d none c e = cc
  session_found id d (some (object fields)) c e = cc
  session_found id d (some (string other)) c e =
      let (tokens, g, r) =
        bind_returned (λ tokens. pure (some other, tokens)) (get_tokens now other) c e in
      let out : ok (some other, tokens) ≡ ok (some id, some d) = rw r at e in
      let same : some other ≡ some id = cc out in
      let kept : tokens ≡ some d = cc out in
      (
        ap (λ o. elim o [ none ↦ none | some x ↦ some (string x) ]) same,
        rw r (get_tokens-some now other c d (g ∙ ap ok kept)),
      )

  by_sid :
      (sid id : String) (d : TokensData) (c : LocalCacheClient)
      → (get_by_sid now sid c).0 ≡ ok (some id, some d)
      → (get (seconds now) (cache_sid_key sid) c ≡ some (string id))
        × ((get_by_sid now sid c).1 ≡ c)
  unfolding get_by_sid
  by_sid sid id d c e = session_found id d (get (seconds now) (cache_sid_key sid) c) c e

-- The session of restored tokens leads to them still, unless it is the one that they name.
abbrev pub IsSession : String → Tokens → LocalCacheClient → Type 0
IsSession sid t c =
    (later : ℕ) → (t.tokens_data.session_state == sid) ≡ false → LeadsTo later sid t.id c

module _ (oidc : OidcClient) (now : ℕ) where
  restored-IsSession :
      (sid id : String) (d : TokensData) (c : LocalCacheClient) (t : Tokens)
      → get (seconds now) (cache_sid_key sid) c ≡ some (string id)
      → (restore_tokens oidc now id c).0 ≡ ok (some t)
      → IsSession sid t (restore_tokens oidc now id c).1
  restored-IsSession sid id d c t e g later n =
      let leads = get-once (seconds now) later sid id c e in
      let (old, found, (same, valid, how)) = restore_tokens-IsRestored oidc now id c t g in
      elim how [
        | inl (fresh, kept, still) ↦ rw (same, still) leads
        | inr (due, given, stored) ↦
            let key = get_sid-store now later id sid t.tokens_data c in
            elim leads [
              | inl l ↦ inl (rw (same, stored, key, n) l)
              | inr l ↦ inr (rw (stored, key, n) l)
            ]
      ]

  restore_session-IsSession :
      (sid : String) (c : LocalCacheClient) (t : Tokens) (found : SessionTokens)
      → (get_by_sid now sid c).0 ≡ ok found
      → (restore_session oidc now found (get_by_sid now sid c).1).0 ≡ ok (some t)
      → IsSession sid t (restore_session oidc now found (get_by_sid now sid c).1).1
  unfolding pure
  restore_session-IsSession sid c t (none, x) g e = cc
  restore_session-IsSession sid c t (some id, none) g e = cc
  restore_session-IsSession sid c t (some id, some d) g e =
      let (leads, same) = by_sid now sid id d c g in
      rw same (restored-IsSession sid id d c t leads (rw same at e))

  pub restore_tokens-IsSession :
      (sid : String) (c : LocalCacheClient) (t : Tokens)
      → (restore_tokens_from_session_id oidc now sid c).0 ≡ ok (some t)
      → IsSession sid t (restore_tokens_from_session_id oidc now sid c).1
  unfolding restore_tokens_from_session_id
  restore_tokens-IsSession sid c t e =
      let (found, g, r) = bind_returned (restore_session oidc now) (get_by_sid now sid) c e in
      rw r (restore_session-IsSession sid c t found g (rw r at e))
