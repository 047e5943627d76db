-- ===== src/Accounts/Laws/SessionLess.antt =====
-- How long the tokens that the services use for themselves are kept.
use py_youwol.Prelude.{
  ℕ, ◌+◌, ◌-◌, ◌<◌, ◌≡◌, refl, ◌∙◌, true, false, none, some, ltb, eq_refl, arith,
}
use py_youwol.Prelude.Exec.{Result, ok, ◌>>=◌, pure, lift}
use py_youwol.Cache.{object, at, LocalCacheClient, get, set}
use py_youwol.Cache.Laws.{get-set}
use py_youwol.Accounts.Tokens.{seconds}
use py_youwol.Accounts.SessionLess.{
  SessionlessTokensData, SessionLessTokenManager, kept_until, write_token, ask_token,
  get_access_token,
}

module _ (self : SessionLessTokenManager) (now : ℕ) (tokens : SessionlessTokensData)
    (c : LocalCacheClient) where
  -- The cache once the provider has given these tokens.
  abbrev kept : LocalCacheClient
  kept =
      let expires_at = kept_until self now tokens in
      set (seconds now) self.cache_key (object (write_token tokens expires_at)) (at expires_at) c

  get_access_token-ask :
      get (seconds now) self.cache_key c ≡ none
      → get_access_token self (ok tokens) now c ≡ (ok tokens.access_token, kept)
  unfolding get_access_token ask_token ◌>>=◌ pure lift
  get_access_token-ask gone = rw gone refl

  get-kept :
      (later : ℕ)
      → seconds later < kept_until self now tokens
      → get (seconds later) self.cache_key kept
        ≡ some (object (write_token tokens (kept_until self now tokens)))
  get-kept later before =
      let there : ltb (seconds later) (kept_until self now tokens) ≡ true = ground arith in
      get-set (seconds now) (seconds later) self.cache_key self.cache_key
        (object (write_token tokens (kept_until self now tokens))) (at (kept_until self now tokens))
        c
      ∙ rw (eq_refl self.cache_key, there) refl

  get_access_token-kept :
      (later : ℕ) (answer : Result SessionlessTokensData)
      → seconds later < kept_until self now tokens
      → get_access_token self answer later kept ≡ (ok tokens.access_token, kept)
  unfolding get_access_token ask_token ◌>>=◌ pure lift
  get_access_token-kept later answer before =
      let fresh : ltb (kept_until self now tokens) (seconds later) ≡ false = ground arith in
      rw (get-kept later before, fresh) refl

  -- When the cache has no token of the service and the provider gives one, that one is returned,
  -- and so it is again until `expires_at_threshold` seconds before it expires, whatever the
  -- provider answers by then: nothing is asked or stored again.
  pub get_access_token-again :
      (later : ℕ) (answer : Result SessionlessTokensData)
      → get (seconds now) self.cache_key c ≡ none
      → seconds later < seconds now + tokens.expires_in - self.expires_at_threshold
      → let (outcome, after) = get_access_token self (ok tokens) now c in
        (outcome ≡ ok tokens.access_token)
        × (get_access_token self answer later after ≡ (ok tokens.access_token, after))
  get_access_token-again later answer gone before =
      rw (get_access_token-ask gone) (refl, get_access_token-kept later answer before)
