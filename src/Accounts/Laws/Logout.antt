-- ===== src/Accounts/Laws/Logout.antt =====
-- The logout that the provider asks for: what `handle_logout_back_channel` leaves of a session.
use py_youwol.Prelude.{
  ℕ, String, ◌≡◌, refl, ◌∙◌, Bool, true, false, none, some, Option, if◌then◌else◌, ◌==◌, Bool-cases,
  inl, inr,
}
use py_youwol.Prelude.Exec.{runtime_error, Result, ok, err, Exec, ◌>>=◌, pure, raise, lift}
use py_youwol.Prelude.Exec.Returns.{bind_returned}
use py_youwol.Cache.{LocalCacheClient, delete}
use py_youwol.Cache.Laws.{get-delete}
use py_youwol.Accounts.Tokens.{
  seconds, cache_token_key, cache_sid_key, delete_tokens, OidcClient, LogoutToken, Tokens,
  restore_tokens_from_session_id, delete_saved,
}
use py_youwol.Accounts.Flows.{some_or_raise, guard, handle_logout_back_channel}
use py_youwol.Accounts.Laws.Keys.{same_sid_key, token_sid}
use py_youwol.Accounts.Laws.Found.{get-delete_tokens}
use py_youwol.Accounts.Laws.Session.{LeadsTo, ended, IsSession, restore_tokens-IsSession}

module _ (oidc : OidcClient) (now : ℕ) where
  -- What is left once the tokens of a session are deleted.
  LeadsTo-deleted :
      (later : ℕ) (sid : String) (c : LocalCacheClient) (t : Tokens)
      → IsSession sid t c
      → LeadsTo later sid t.id (delete_saved t c).1
  unfolding delete_tokens
  LeadsTo-deleted later sid c t s =
      let own = t.tokens_data.session_state in
      let key =
        get-delete later (cache_sid_key own) (cache_sid_key sid)
          (delete (cache_token_key t.id) c) in
      elim (Bool-cases (own == sid)) [
        | inl e ↦ inr (rw (key, same_sid_key own sid, e) refl)
        | inr n ↦
            let other =
              key
              ∙ rw (same_sid_key own sid, n) refl
              ∙ get-delete later (cache_token_key t.id) (cache_sid_key sid) c
              ∙ rw (token_sid t.id sid) refl in
            elim (s later n) [ inl l ↦ inl (other ∙ l) | inr l ↦ inr (other ∙ l) ]
      ]

  -- What the state is if the block returns.
  abbrev Leaves :
      (LocalCacheClient → Type 0) → LocalCacheClient → Exec LocalCacheClient (Unit {0}) → Type 0
  Leaves P c m = (m c).0 ≡ ok tt → P (m c).1

  Leaves-lift :
      {A : Type 0} (P : LocalCacheClient → Type 0) (c : LocalCacheClient) (r : Result A)
      (f : A → Exec LocalCacheClient (Unit {0}))
      → ((v : A) → r ≡ ok v → Leaves P c (f v))
      → Leaves P c (lift r >>= f)
  unfolding ◌>>=◌ lift
  Leaves-lift P c (ok v) f h e = h v refl e
  Leaves-lift P c (err x) f h e = cc

  Leaves-some :
      {A : Type 0} (P : LocalCacheClient → Type 0) (c : LocalCacheClient) (o : Option A)
      (f : A → Exec LocalCacheClient (Unit {0}))
      → ((v : A) → o ≡ some v → Leaves P c (f v))
      → Leaves P c (some_or_raise o >>= f)
  unfolding ◌>>=◌ pure raise
  Leaves-some P c (some v) f h e = h v refl e
  Leaves-some P c none f h e = cc

  Leaves-guard :
      (P : LocalCacheClient → Type 0) (c : LocalCacheClient) (b : Bool)
      (f : Exec LocalCacheClient (Unit {0}))
      → Leaves P c f
      → Leaves P c (guard b >>= (λ u. f))
  unfolding ◌>>=◌ pure raise
  Leaves-guard P c true f h e = h e
  Leaves-guard P c false f h e = cc

  Leaves-if :
      (P : LocalCacheClient → Type 0) (c : LocalCacheClient) (b : Bool)
      (f : Exec LocalCacheClient (Unit {0}))
      → Leaves P c f
      → Leaves P c ((if b then raise runtime_error else pure tt) >>= (λ u. f))
  unfolding ◌>>=◌ pure raise
  Leaves-if P c false f h e = h e
  Leaves-if P c true f h e = cc

  deleted_ends :
      (later : ℕ) (sid : String) (c : LocalCacheClient) (restored : Option Tokens)
      → (restore_tokens_from_session_id oidc now sid c).0 ≡ ok restored
      → Leaves
          (λ after. (restore_tokens_from_session_id oidc later sid after).0 ≡ ok none)
          (restore_tokens_from_session_id oidc now sid c).1
          (some_or_raise restored >>= (λ tokens. delete_saved tokens))
  unfolding ◌>>=◌ pure raise
  deleted_ends later sid c none g e = cc
  deleted_ends later sid c (some t) g e =
      let after = (restore_tokens_from_session_id oidc now sid c).1 in
      ended oidc later sid t.id (delete_saved t after).1
        (get-delete_tokens (seconds later) t.id t.tokens_data.session_state after)
        (LeadsTo-deleted (seconds later) sid after t (restore_tokens-IsSession oidc now sid c t g))

  session_ends :
      (later : ℕ) (sid : String) (c : LocalCacheClient)
      → Leaves
          (λ after. (restore_tokens_from_session_id oidc later sid after).0 ≡ ok none)
          c
          (restore_tokens_from_session_id oidc now sid
            >>= (λ restored. some_or_raise restored >>= (λ tokens. delete_saved tokens)))
  session_ends later sid c e =
      let (restored, g, r) =
        bind_returned (λ restored. some_or_raise restored >>= (λ tokens. delete_saved tokens))
          (restore_tokens_from_session_id oidc now sid) c e in
      rw r (deleted_ends later sid c restored g (rw r at e))

  -- If `handle_logout_back_channel` returns, then the token named a session, and whatever the time,
  -- that session restores nothing any more.
  pub handle_logout_back_channel-ends :
      (later : ℕ) (logout_token : String) (c : LocalCacheClient)
      → (handle_logout_back_channel oidc now logout_token c).0 ≡ ok tt
      → (decoded : LogoutToken) × (sid : String) × (oidc.token_decode logout_token ≡ ok decoded)
        × (decoded.sid ≡ some sid)
        × ((restore_tokens_from_session_id oidc later sid
              (handle_logout_back_channel oidc now logout_token c).1).0
            ≡ ok none)
  unfolding handle_logout_back_channel
  handle_logout_back_channel-ends later logout_token c =
      let P : LocalCacheClient → Type 0 = λ after.
        (decoded : LogoutToken) × (sid : String) × (oidc.token_decode logout_token ≡ ok decoded)
        × (decoded.sid ≡ some sid)
        × ((restore_tokens_from_session_id oidc later sid after).0 ≡ ok none) in
      Leaves-lift P c _ _ (λ decoded e1. Leaves-some P c _ _ (λ sid e2.
        Leaves-some P c _ _ (λ events e3.
          Leaves-guard P c _ _
            (Leaves-if P c _ _ (λ e. (decoded, sid, e1, e2, session_ends later sid c e))))))
