-- ===== src/Accounts/SessionLess.antt =====
-- src/youwol/utils/clients/oidc/tokens_manager.py: `SessionLessTokenManager`, the tokens that the
-- services use for themselves. What the provider answers to a call is an argument.
use py_youwol.Prelude.{ℕ, String, ◌+◌, ◌-◌, none, some, Option, [], ◌∷◌, ltb, if◌then◌else◌}
use py_youwol.Prelude.Dict.{Dict}
use py_youwol.Prelude.Exec.{
  Result, ok, err, value_error, type_error, Exec, pure, raise, lift, ◌>>=◌,
}
use py_youwol.Cache.{Scalar, text, number, Json, string, object, at, LocalCacheClient, get, set}
use py_youwol.Accounts.Tokens.{seconds, as_text, field_as}

-- `SessionlessTokensData` of src/youwol/utils/clients/oidc/oidc_config.py
pub record SessionlessTokensData : Type 0 where
  pub access_token : String
  pub expires_in : ℕ

pub record SessionLessTokenManager : Type 0 where
  pub cache_key : String
  pub expires_at_threshold : ℕ

-- `int(x)`, for the seconds that are stored; nothing stores another value there.
abbrev pub as_number : Scalar → Result ℕ
as_number (number n) = ok n
as_number s = err type_error

-- The moment until which a token is kept, in seconds. A moment below zero is zero here; both are
-- in the past.
abbrev pub kept_until : SessionLessTokenManager → ℕ → SessionlessTokensData → ℕ
kept_until self now tokens = seconds now + tokens.expires_in - self.expires_at_threshold

-- The object that `get_access_token` caches.
abbrev pub write_token : SessionlessTokensData → ℕ → Dict Scalar
write_token tokens expires_at =
    ("access_token", text tokens.access_token) ∷ ("expires_at", number expires_at) ∷ []

abbrev pub keep_token :
    SessionLessTokenManager → ℕ → SessionlessTokensData → Exec LocalCacheClient (Dict Scalar)
keep_token self now tokens c =
    let expires_at = kept_until self now tokens in
    let token_data = write_token tokens expires_at in
    (ok token_data, set (seconds now) self.cache_key (object token_data) (at expires_at) c)

module _ (self : SessionLessTokenManager)
    (client_credentials_flow : Result SessionlessTokensData) where
  -- The body of the `if` of `get_access_token`.
  unfoldable pub ask_token : ℕ → Exec LocalCacheClient (Dict Scalar)
  ask_token now = do tokens ← lift client_credentials_flow; keep_token self now tokens

  abbrev pub token_data_for : ℕ → Option Json → Exec LocalCacheClient (Dict Scalar)
  token_data_for now none = ask_token now
  token_data_for now (some (string s)) = raise value_error
  token_data_for now (some (object token_data)) = do
    expires_at ← lift (field_as as_number "expires_at" token_data)
    if ltb expires_at (seconds now) then ask_token now else pure token_data

  abbrev found_token : ℕ → Option Json → Exec LocalCacheClient String
  found_token now cached = do
    token_data ← token_data_for now cached
    lift (field_as as_text "access_token" token_data)

  -- `SessionLessTokenManager.get_access_token`
  unfoldable pub get_access_token : ℕ → Exec LocalCacheClient String
  get_access_token now c = found_token now (get (seconds now) self.cache_key c) c
