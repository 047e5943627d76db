-- ===== src/Accounts/Laws/Login.antt =====
-- The login: what the callback finds of a flow that was begun, and that it finds it once.
use py_youwol.Prelude.{
  ℕ, String, ◌≤◌, ◌+◌, ◌≡◌, refl, ◌∙◌, ap, true, false, none, some, Option, [], ◌∷◌, ltb,
  if◌then◌else◌, eq_refl, arith, Bool-cases, inl, inr,
}
use py_youwol.Prelude.Dict.{Dict}
use py_youwol.Prelude.Exec.{value_error, Result, ok, err, Exec, ◌>>=◌, pure, lift}
use py_youwol.Prelude.Exec.Returns.{Result-cases}
use py_youwol.Cache.{Scalar, text, string, object, ttl, at, LocalCacheClient, get, set, delete}
use py_youwol.Cache.Laws.{get-set}
use py_youwol.Accounts.Tokens.{
  TokensData, seconds, cache_token_key, cache_sid_key, store, OidcClient, Tokens, save_tokens,
  write_tokens,
}
use py_youwol.Accounts.Flows.{
  AuthorizationFlow, auth_flow_key, to_auth_flow, init_authorization_flow,
  handle_authorization_flow_callback,
}
use py_youwol.Accounts.Laws.Keys.{token_flow, sid_flow}
use py_youwol.Accounts.Laws.Found.{get-later, get-deleted}

-- Storing tokens leaves the flows alone.
get_flow-store :
    (now later : ℕ) (id ref : String) (d : TokensData) (c : LocalCacheClient)
    → get later (auth_flow_key ref) (store now id d c).1 ≡ get later (auth_flow_key ref) c
unfolding store
get_flow-store now later id ref d c =
    let expire = at (seconds d.refresh_expires_at) in
    let with_tokens = set (seconds now) (cache_token_key id) (object (write_tokens d)) expire c in
    get-set (seconds now) later (cache_sid_key d.session_state) (auth_flow_key ref) (string id)
      expire with_tokens
    ∙ rw
        (
          sid_flow d.session_state ref,
          get-set (seconds now) later (cache_token_key id) (auth_flow_key ref)
              (object (write_tokens d)) expire c,
          token_flow id ref,
        )
        refl

module _ (oidc : OidcClient) (flow_ref code callback_uri tokens_id : String) where
  abbrev callback : ℕ → Exec LocalCacheClient (Tokens × String)
  callback now = handle_authorization_flow_callback oidc now flow_ref code callback_uri tokens_id

  callback-none :
      (now : ℕ) (c : LocalCacheClient)
      → get (seconds now) (auth_flow_key flow_ref) c ≡ none
      → callback now c ≡ (err value_error, c)
  unfolding handle_authorization_flow_callback ◌>>=◌ lift
  callback-none now c e = rw e refl

  -- The callback for a flow that is cached.
  abbrev callback_outcome : ℕ → AuthorizationFlow → Exec LocalCacheClient (Tokens × String)
  callback_outcome now flow c =
      let left = delete (auth_flow_key flow.ref) c in
      elim (oidc.auth_flow_handle_cb code flow.code_verifier callback_uri flow.nonce) [
        | err e ↦ (err e, left)
        | ok d ↦ (
          ok (record { id = tokens_id; tokens_data = d }, flow.target_uri),
          (store now tokens_id d left).1,
        )
      ]

  callback-some :
      (now : ℕ) (c : LocalCacheClient) (fields : Dict Scalar) (flow : AuthorizationFlow)
      → get (seconds now) (auth_flow_key flow_ref) c ≡ some (object fields)
      → to_auth_flow fields ≡ ok flow
      → callback now c ≡ callback_outcome now flow c
  unfolding handle_authorization_flow_callback save_tokens store ◌>>=◌ lift pure
  callback-some now c fields flow e f =
      elim (Result-cases
        (oidc.auth_flow_handle_cb code flow.code_verifier callback_uri flow.nonce)) [
          | inl (d, g) ↦ rw (e, f, callback_outcome, g) refl
          | inr (x, g) ↦ rw (e, f, callback_outcome, g) refl
        ]

  -- Whatever the provider answers, a flow that is found is found no more.
  gone_after :
      (now again : ℕ) (flow : AuthorizationFlow) (c : LocalCacheClient)
      → flow.ref ≡ flow_ref
      → get again (auth_flow_key flow_ref) (callback_outcome now flow c).1 ≡ none
  gone_after now again flow c same =
      elim (Result-cases
        (oidc.auth_flow_handle_cb code flow.code_verifier callback_uri flow.nonce)) [
          | inr (x, g) ↦
              rw (callback_outcome, g, same) (get-deleted again (auth_flow_key flow_ref) c)
          | inl (d, g) ↦
              rw (callback_outcome, g, same)
                (get_flow-store now again tokens_id flow_ref d (delete (auth_flow_key flow_ref) c)
                  ∙ get-deleted again (auth_flow_key flow_ref) c)
        ]

module _ (oidc : OidcClient) (now : ℕ) (fresh target_uri : String) (hint : Option String)
    (callback_uri : String) (c : LocalCacheClient) where
  abbrev begun : LocalCacheClient
  begun = (init_authorization_flow oidc now fresh target_uri hint callback_uri c).1

  abbrev saved : String → String → AuthorizationFlow
  saved verifier nonce = record {
    ref = fresh;
    target_uri = target_uri;
    code_verifier = verifier;
    nonce = nonce;
  }

  -- What `save` caches.
  abbrev saved_fields : String → String → Dict Scalar
  saved_fields verifier nonce =
      ("ref", text fresh)
      ∷ ("target_uri", text target_uri)
      ∷ ("code_verifier", text verifier)
      ∷ ("nonce", text nonce)
      ∷ []

  get-begun :
      (url verifier nonce : String) (later : ℕ)
      → oidc.auth_flow_url fresh callback_uri hint ≡ ok (url, verifier, nonce)
      → get later (auth_flow_key fresh) begun ≡ (
          if ltb later (seconds now + 300)
          then some (object (saved_fields verifier nonce))
          else none)
  unfolding init_authorization_flow ◌>>=◌ lift pure
  get-begun url verifier nonce later e = rw e (
      get-set (seconds now) later (auth_flow_key fresh) (auth_flow_key fresh)
        (object (saved_fields verifier nonce)) (ttl 300) c
      ∙ rw (eq_refl (auth_flow_key fresh)) refl)

  to_auth_flow-saved :
      (verifier nonce : String)
      → to_auth_flow (saved_fields verifier nonce) ≡ ok (saved verifier nonce)
  unfolding to_auth_flow
  to_auth_flow-saved verifier nonce = refl

  module _ (url verifier nonce : String)
      (given : oidc.auth_flow_url fresh callback_uri hint ≡ ok (url, verifier, nonce)) (later : ℕ)
      (code tokens_id : String) where
    abbrev first : Result (Tokens × String) × LocalCacheClient
    first = handle_authorization_flow_callback oidc later fresh code callback_uri tokens_id begun

    abbrev outcome_found : AuthorizationFlow → Result (Tokens × String) × LocalCacheClient
    outcome_found flow = callback_outcome oidc fresh code callback_uri tokens_id later flow begun

    first_expired :
        ltb (seconds later) (seconds now + 300) ≡ false → first ≡ (err value_error, begun)
    first_expired l =
        callback-none oidc fresh code callback_uri tokens_id later begun
          (get-begun url verifier nonce (seconds later) given ∙ rw l refl)

    first_live :
        ltb (seconds later) (seconds now + 300) ≡ true
        → first ≡ outcome_found (saved verifier nonce)
    first_live l =
        callback-some oidc fresh code callback_uri tokens_id later begun
          (saved_fields verifier nonce) (saved verifier nonce)
          (get-begun url verifier nonce (seconds later) given ∙ rw l refl)
          (to_auth_flow-saved verifier nonce)

    gone_first :
        (again : ℕ) → later ≤ again → get (seconds again) (auth_flow_key fresh) first.1 ≡ none
    gone_first again after = elim (Bool-cases (ltb (seconds later) (seconds now + 300))) [
      | inl l ↦ rw (first_live l) (
          gone_after oidc fresh code callback_uri tokens_id later (seconds again)
            (saved verifier nonce) begun refl)
      | inr l ↦ rw (first_expired l) (
          get-later (seconds later) (seconds again) (auth_flow_key fresh) begun (omega arith)
            (get-begun url verifier nonce (seconds later) given ∙ rw l refl))
    ]

    -- After `init_authorization_flow` returns, the callback for its flow asks the provider with the
    -- verifier and the nonce of the flow, and returns the tokens that it gives and the address that
    -- the flow was begun for, within five minutes; from then on it is a `ValueError`.
    pub handle_authorization_flow_callback-init : first.0 ≡ (
        if ltb (seconds later) (seconds now + 300)
        then elim (oidc.auth_flow_handle_cb code verifier callback_uri nonce) [
          | err e ↦ err e
          | ok d ↦ ok (record { id = tokens_id; tokens_data = d }, target_uri)
        ]
        else err value_error)
    handle_authorization_flow_callback-init =
        elim (Bool-cases (ltb (seconds later) (seconds now + 300))) [
          | inr l ↦ ap (λ x. x.0) (first_expired l) ∙ rw l refl
          | inl l ↦
              ap (λ x. x.0) (first_live l)
              ∙ elim (Result-cases (oidc.auth_flow_handle_cb code verifier callback_uri nonce)) [
                | inl (d, g) ↦ rw (outcome_found, callback_outcome, g, l) refl
                | inr (x, g) ↦ rw (outcome_found, callback_outcome, g, l) refl
              ]
        ]

    -- The second callback for a flow that `init_authorization_flow` began is a `ValueError`, at
    -- whatever time from the first one on, and whatever that one came to.
    pub handle_authorization_flow_callback-once :
        (again : ℕ) (other_code other_uri other_id : String)
        → later ≤ again
        → (handle_authorization_flow_callback oidc again fresh other_code other_uri other_id
            first.1).0
          ≡ err value_error
    handle_authorization_flow_callback-once again other_code other_uri other_id after =
        ap (λ x. x.0)
          (callback-none oidc fresh other_code other_uri other_id again first.1
            (gone_first again after))
