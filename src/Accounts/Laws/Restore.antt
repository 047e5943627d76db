-- ===== src/Accounts/Laws/Restore.antt =====
-- What `restore_tokens` returns and leaves in the cache.
use py_youwol.Prelude.{
  ℕ, String, ◌≤◌, ◌≡◌, refl, ◌∙◌, ◌⊎◌, sym, ap, true, false, none, some, Option, ltb, if◌then◌else◌,
  Bool-cases, inl, inr,
}
use py_youwol.Prelude.Exec.{Error, runtime_error, Result, ok, err, Exec, ◌>>=◌, pure, raise, lift}
use py_youwol.Prelude.Exec.Returns.{bind_returned, Result-cases}
use py_youwol.Cache.{LocalCacheClient, get}
use py_youwol.Accounts.Tokens.{
  TokensData, seconds, cache_token_key, get_tokens, delete_tokens, store, OidcClient, Tokens,
  refresh, access_token, restored, restore_found, restore_tokens,
}
use py_youwol.Accounts.Laws.Found.{
  get_tokens-none, get-delete_tokens, get_tokens-some, get_tokens_gone,
}

module _ (oidc : OidcClient) (now : ℕ) where
  -- The outcome of `access_token`.
  abbrev access_outcome : Tokens → Exec LocalCacheClient (String × Tokens)
  access_outcome t c =
      if ltb t.tokens_data.refresh_expires_at now
      then (err runtime_error, c)
      else if ltb t.tokens_data.expires_at now
      then elim (oidc.refresh t.tokens_data.refresh_token) [
        | err e ↦ (err e, c)
        | ok d ↦ (ok (d.access_token, record t { tokens_data = d }), (store now t.id d c).1)
      ]
      else (ok (t.tokens_data.access_token, t), c)

  access_token_lem :
      (t : Tokens) (c : LocalCacheClient) → access_token oidc now t c ≡ access_outcome t c
  unfolding access_token refresh store ◌>>=◌ pure raise lift
  access_token_lem t c = elim (Bool-cases (ltb t.tokens_data.refresh_expires_at now)) [
    | inl lost ↦ rw lost refl
    | inr valid ↦ elim (Bool-cases (ltb t.tokens_data.expires_at now)) [
      | inr fresh ↦ rw (valid, fresh) refl
      | inl old ↦ elim (Result-cases (oidc.refresh t.tokens_data.refresh_token)) [
        | inl (d, r) ↦ rw (valid, old, r) refl
        | inr (e, r) ↦ rw (valid, old, r) refl
      ]
    ]
  ]

  -- Tokens that are restored: the ones found, if they are still good, or else the ones that the
  -- provider gives for them, which are stored.
  abbrev pub IsRestored :
      String → LocalCacheClient → TokensData → LocalCacheClient → Tokens → Type 0
  IsRestored id c d after t =
      (t.id ≡ id)
      × (ltb d.refresh_expires_at now ≡ false)
      × (((ltb d.expires_at now ≡ false) × (t.tokens_data ≡ d) × (after ≡ c))
          ⊎ ((ltb d.expires_at now ≡ true)
              × (oidc.refresh d.refresh_token ≡ ok t.tokens_data)
              × (after ≡ (store now id t.tokens_data c).1)))

  lost_lem :
      (t : Tokens) (c : LocalCacheClient)
      → restored oidc now t (err runtime_error) c
        ≡ (ok none, (delete_tokens t.id t.tokens_data.session_state c).1)
  unfolding pure ◌>>=◌ delete_tokens
  lost_lem t c = refl

  not_restored :
      (t u : Tokens) (c : LocalCacheClient) (x : Error)
      → (restored oidc now t (err x) c).0 ≡ ok (some u)
      → ⊥
  unfolding raise
  not_restored t u c runtime_error e = cc (rw (lost_lem t c) at e)
  not_restored t u c x e = cc

  found-IsRestored :
      (id : String) (d : TokensData) (c : LocalCacheClient) (t : Tokens)
      → (restore_found oidc now id (some d) c).0 ≡ ok (some t)
      → IsRestored id c d (restore_found oidc now id (some d) c).1 t
  unfolding pure
  found-IsRestored id d c t e =
      let tokens : Tokens = record { id = id; tokens_data = d } in
      elim (Bool-cases (ltb d.refresh_expires_at now)) [
        | inl lost ↦
            let r : access_token oidc now tokens c ≡ (err runtime_error, c) =
              access_token_lem tokens c ∙ rw lost refl in
            absurd (not_restored tokens t c runtime_error (rw r at e))
        | inr valid ↦ elim (Bool-cases (ltb d.expires_at now)) [
          | inr fresh ↦
              let r : access_token oidc now tokens c ≡ (ok (d.access_token, tokens), c) =
                access_token_lem tokens c ∙ rw (valid, fresh) refl in
              let same : tokens ≡ t = cc (rw r at e) in
              (
                sym (ap (λ x. x.id) same),
                valid,
                inl (fresh, sym (ap (λ x. x.tokens_data) same), rw r refl),
              )
          | inl old ↦ elim (Result-cases (oidc.refresh d.refresh_token)) [
            | inl (given, g) ↦
                let renewed : Tokens = record { id = id; tokens_data = given } in
                let r : access_token oidc now tokens c
                    ≡ (ok (given.access_token, renewed), (store now id given c).1) =
                  access_token_lem tokens c ∙ rw (valid, old, g) refl in
                let same : renewed ≡ t = cc (rw r at e) in
                let kept : given ≡ t.tokens_data = ap (λ x. x.tokens_data) same in
                (
                  sym (ap (λ x. x.id) same),
                  valid,
                  inr (old, g ∙ ap ok kept, rw r (ap (λ x. (store now id x c).1) kept)),
                )
            | inr (x, g) ↦
                let r : access_token oidc now tokens c ≡ (err x, c) =
                  access_token_lem tokens c ∙ rw (valid, old, g) refl in
                absurd (not_restored tokens t c x (rw r at e))
          ]
        ]
      ]

  from_found :
      (id : String) (c : LocalCacheClient) (t : Tokens) (found : Option TokensData)
      → (get_tokens now id c).0 ≡ ok found
      → (restore_found oidc now id found (get_tokens now id c).1).0 ≡ ok (some t)
      → (d : TokensData) × ((get_tokens now id c).0 ≡ ok (some d))
        × IsRestored id c d (restore_found oidc now id found (get_tokens now id c).1).1 t
  unfolding pure
  from_found id c t none g e = cc
  from_found id c t (some d) g e =
      let same = get_tokens-some now id c d g in
      (d, g, rw same (found-IsRestored id d c t (rw same at e)))

  -- If `restore_tokens` returns tokens, then it found tokens in the cache that can still be refreshed;
  -- those returned have the identifier asked for, and they are the ones that were cached, not expired,
  -- the cache left alone, or else the ones that the provider gave for the expired ones, whatever
  -- their deadlines, which are stored.
  pub restore_tokens-IsRestored :
      (id : String) (c : LocalCacheClient) (t : Tokens)
      → (restore_tokens oidc now id c).0 ≡ ok (some t)
      → (d : TokensData) × ((get_tokens now id c).0 ≡ ok (some d))
        × IsRestored id c d (restore_tokens oidc now id c).1 t
  unfolding restore_tokens
  restore_tokens-IsRestored id c t e =
      let (found, g, r) = bind_returned (restore_found oidc now id) (get_tokens now id) c e in
      rw r (from_found id c t found g (rw r at e))

  restored_gone :
      (later : ℕ) (t : Tokens) (r : Result (String × Tokens)) (c : LocalCacheClient)
      → (restored oidc now t r c).0 ≡ ok none
      → get later (cache_token_key t.id) (restored oidc now t r c).1 ≡ none
  unfolding pure raise
  restored_gone later t (ok fresh) c e = cc
  restored_gone later t (err runtime_error) c e =
      rw (lost_lem t c) (get-delete_tokens later t.id t.tokens_data.session_state c)
  restored_gone later t (err x) c e = cc

  found_gone :
      (later : ℕ) (id : String) (d : TokensData) (c : LocalCacheClient)
      → (restore_found oidc now id (some d) c).0 ≡ ok none
      → get later (cache_token_key id) (restore_found oidc now id (some d) c).1 ≡ none
  found_gone later id d c e =
      let tokens : Tokens = record { id = id; tokens_data = d } in
      restored_gone later tokens (access_token oidc now tokens c).0
        (access_token oidc now tokens c).1 e

  gone_from :
      (later : ℕ) (id : String) (c : LocalCacheClient) (found : Option TokensData)
      → now ≤ later
      → (get_tokens now id c).0 ≡ ok found
      → (restore_found oidc now id found (get_tokens now id c).1).0 ≡ ok none
      → get
          (seconds later)
          (cache_token_key id)
          (restore_found oidc now id found (get_tokens now id c).1).1
        ≡ none
  unfolding pure
  gone_from later id c none after g e = get_tokens_gone now later id c after g
  gone_from later id c (some d) after g e =
      let same = get_tokens-some now id c d g in
      rw same (found_gone (seconds later) id d c (rw same at e))

  -- If `restore_tokens` returns nothing, then from then on the tokens are not found.
  pub restore_tokens-none :
      (later : ℕ) (id : String) (c : LocalCacheClient)
      → now ≤ later
      → (restore_tokens oidc now id c).0 ≡ ok none
      → (get_tokens later id (restore_tokens oidc now id c).1).0 ≡ ok none
  unfolding restore_tokens
  restore_tokens-none later id c after e =
      let (found, g, r) = bind_returned (restore_found oidc now id) (get_tokens now id) c e in
      ap (λ x. x.0)
        (get_tokens-none later id (restore_tokens oidc now id c).1
          (rw r (gone_from later id c found after g (rw r at e))))
