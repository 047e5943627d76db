-- ===== src/Accounts/Tokens.antt =====
-- src/youwol/utils/clients/oidc/tokens_manager.py. A time is a number of microseconds; the clock
-- stands still within a call.
use py_youwol.Prelude.{
  ℕ, String, ◌<>◌, ◌/◌, Bool, none, some, Option, List, [], ◌∷◌, ltb, if◌then◌else◌,
}
use py_youwol.Prelude.Dict.{Dict, get as find}
use py_youwol.Prelude.Exec.{
  Result, ok, err, then_ok, key_error, value_error, runtime_error, type_error, Exec, pure, raise,
  lift, ◌>>=◌, ◌>>◌,
}
use py_youwol.Cache.{
  Scalar, text, time, Json, string, object, at, LocalCacheClient, get, set, delete,
}

-- `TokensData` of src/youwol/utils/clients/oidc/oidc_config.py
pub record TokensData : Type 0 where
  pub id_token : String
  pub access_token : String
  pub refresh_token : String
  pub expires_at : ℕ
  pub refresh_expires_at : ℕ
  pub session_state : String

-- `int(t)`, for a time
abbrev pub seconds : ℕ → ℕ
seconds t = t / 1000000

-- `str(x)`, for the texts that are stored; nothing stores another value there.
abbrev pub as_text : Scalar → Result String
as_text (text s) = ok s
as_text s = err type_error

-- `float(x)`, for the times that are stored; nothing stores another value there.
abbrev pub as_time : Scalar → Result ℕ
as_time (time t) = ok t
as_time s = err type_error

-- `data[name]`, read by `convert`
abbrev pub field_as : {A : Type 0} → (Scalar → Result A) → String → Dict Scalar → Result A
field_as convert name tokens_data = elim (find name tokens_data) [
  | none ↦ err key_error
  | some s ↦ convert s
]

-- The body of the `try` of `TokensStorageCache.get`.
unfoldable pub read_tokens : Dict Scalar → Result TokensData
read_tokens tokens_data = then_ok (field_as as_text "id_token" tokens_data) (λ id_token.
    then_ok (field_as as_text "access_token" tokens_data) (λ access_token.
      then_ok (field_as as_text "refresh_token" tokens_data) (λ refresh_token.
        then_ok (field_as as_text "session_state" tokens_data) (λ session_state.
          then_ok (field_as as_time "expires_at" tokens_data) (λ expires_at.
            then_ok (field_as as_time "refresh_expires_at" tokens_data) (λ refresh_expires_at.
              ok (record {
                id_token = id_token;
                access_token = access_token;
                refresh_token = refresh_token;
                expires_at = expires_at;
                refresh_expires_at = refresh_expires_at;
                session_state = session_state;
              })))))))

-- The object that `TokensStorageCache.store` caches.
unfoldable pub write_tokens : TokensData → Dict Scalar
write_tokens tokens_data =
    ("id_token", text tokens_data.id_token)
    ∷ ("refresh_token", text tokens_data.refresh_token)
    ∷ ("access_token", text tokens_data.access_token)
    ∷ ("expires_at", time tokens_data.expires_at)
    ∷ ("refresh_expires_at", time tokens_data.refresh_expires_at)
    ∷ ("session_state", text tokens_data.session_state)
    ∷ []

unfoldable pub cache_token_key : String → String
cache_token_key tokens_id = "tokens" <> ("_" <> tokens_id)

unfoldable pub cache_sid_key : String → String
cache_sid_key session_id = "sid" <> ("_" <> session_id)

-- The `except KeyError` of `TokensStorageCache.get`: what it returns, and what it deletes.
abbrev pub recovered : Result TokensData → Result (Option TokensData)
recovered (ok tokens) = ok (some tokens)
recovered (err key_error) = ok none
recovered (err e) = err e

abbrev pub emptied : String → Result TokensData → LocalCacheClient → LocalCacheClient
emptied key (ok tokens) c = c
emptied key (err key_error) c = delete key c
emptied key (err e) c = c

abbrev pub found_tokens : String → Option Json → Exec LocalCacheClient (Option TokensData)
found_tokens key none c = (ok none, c)
found_tokens key (some (string s)) c = (err value_error, c)
found_tokens key (some (object fields)) c =
    (recovered (read_tokens fields), emptied key (read_tokens fields) c)

-- `TokensStorageCache.get`
unfoldable pub get_tokens : ℕ → String → Exec LocalCacheClient (Option TokensData)
get_tokens now tokens_id c =
    found_tokens (cache_token_key tokens_id) (get (seconds now) (cache_token_key tokens_id) c) c

-- `TokensStorageCache.delete`
unfoldable pub delete_tokens : String → String → Exec LocalCacheClient (Unit {0})
delete_tokens tokens_id session_id c =
    (ok tt, delete (cache_sid_key session_id) (delete (cache_token_key tokens_id) c))

abbrev pub SessionTokens : Type 0
SessionTokens = Option String × Option TokensData

abbrev pub found_session : ℕ → Option Json → Exec LocalCacheClient SessionTokens
found_session now none = pure (none, none)
found_session now (some (object tokens_data)) = raise value_error
found_session now (some (string tokens_id)) = do
  tokens ← get_tokens now tokens_id
  pure (some tokens_id, tokens)

-- `TokensStorageCache.get_by_sid`
unfoldable pub get_by_sid : ℕ → String → Exec LocalCacheClient SessionTokens
get_by_sid now session_id c = found_session now (get (seconds now) (cache_sid_key session_id) c) c

-- `TokensStorageCache.store`
unfoldable pub store : ℕ → String → TokensData → Exec LocalCacheClient (Unit {0})
store now tokens_id tokens_data c =
    let expire = at (seconds tokens_data.refresh_expires_at) in
    let c1 =
      set (seconds now) (cache_token_key tokens_id) (object (write_tokens tokens_data)) expire c in
    (
      ok tt,
      set (seconds now) (cache_sid_key tokens_data.session_state) (string tokens_id) expire c1,
    )

-- What the claims of a logout token are read for.
pub record LogoutToken : Type 0 where
  pub sid : Option String
  pub events : Option (List String)
  pub has_nonce : Bool

-- What the provider answers to the calls of `OidcForClient`.
pub record OidcClient : Type 0 where
  pub refresh : String → Result TokensData
  pub auth_flow_url : String → String → Option String → Result (String × String × String)
  pub auth_flow_handle_cb : String → String → String → String → Result TokensData
  pub direct_flow : String → String → Result TokensData
  pub logout_url : String → String → String → Result String
  pub token_decode : String → Result LogoutToken

pub record Tokens : Type 0 where
  pub id : String
  pub tokens_data : TokensData

-- `Tokens.delete`
abbrev pub delete_saved : Tokens → Exec LocalCacheClient (Unit {0})
delete_saved self = delete_tokens self.id self.tokens_data.session_state

abbrev pub assert_refresh_not_expired : ℕ → Tokens → Exec LocalCacheClient (Unit {0})
assert_refresh_not_expired now self =
    if ltb self.tokens_data.refresh_expires_at now then raise runtime_error else pure tt

-- `Tokens.id_token`
abbrev pub id_token : ℕ → Tokens → Exec LocalCacheClient String
id_token now self = do assert_refresh_not_expired now self; pure self.tokens_data.id_token

-- `TokensManager.save_tokens`
unfoldable pub save_tokens : ℕ → String → TokensData → Exec LocalCacheClient Tokens
save_tokens now tokens_id tokens_data = do
  store now tokens_id tokens_data
  pure (record { id = tokens_id; tokens_data = tokens_data })

module _ (oidc : OidcClient) (now : ℕ) where
  -- `Tokens.refresh`; the object comes back as it is left.
  unfoldable pub refresh : Tokens → Exec LocalCacheClient Tokens
  refresh self = do
    assert_refresh_not_expired now self
    tokens_data ← lift (oidc.refresh self.tokens_data.refresh_token)
    store now self.id tokens_data
    pure (record self { tokens_data = tokens_data })

  -- `Tokens.access_token`, with the object as it is left.
  unfoldable pub access_token : Tokens → Exec LocalCacheClient (String × Tokens)
  access_token self = do
    assert_refresh_not_expired now self
    fresh ← if ltb self.tokens_data.expires_at now then refresh self else pure self
    pure (fresh.tokens_data.access_token, fresh)

  -- The `try` of `restore_tokens`.
  abbrev pub restored : Tokens → Result (String × Tokens) → Exec LocalCacheClient (Option Tokens)
  restored tokens (ok (access, fresh)) = pure (some fresh)
  restored tokens (err runtime_error) = do delete_saved tokens; pure none
  restored tokens (err e) = raise e

  abbrev pub restore_found : String → Option TokensData → Exec LocalCacheClient (Option Tokens)
  restore_found tokens_id none c = pure none c
  restore_found tokens_id (some tokens_data) c =
      let tokens : Tokens = record { id = tokens_id; tokens_data = tokens_data } in
      let (outcome, after) = access_token tokens c in restored tokens outcome after

  -- `TokensManager.restore_tokens`
  unfoldable pub restore_tokens : String → Exec LocalCacheClient (Option Tokens)
  restore_tokens tokens_id = do found ← get_tokens now tokens_id; restore_found tokens_id found

  abbrev pub restore_session : SessionTokens → Exec LocalCacheClient (Option Tokens)
  restore_session (some tokens_id, some tokens_data) = restore_tokens tokens_id
  restore_session (some tokens_id, none) = pure none
  restore_session (none, tokens_data) = pure none

  -- `TokensManager.restore_tokens_from_session_id`
  unfoldable pub restore_tokens_from_session_id : String → Exec LocalCacheClient (Option Tokens)
  restore_tokens_from_session_id session_id = do
    found ← get_by_sid now session_id
    restore_session found
