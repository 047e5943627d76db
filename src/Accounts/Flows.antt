-- ===== src/Accounts/Flows.antt =====
-- src/youwol/backends/accounts/openid_rp: `OpenidFlowsService` of openid_flows_service.py and the
-- flows of openid_flows_states.py. What a call draws, a reference or an identifier, is an argument.
use py_youwol.Prelude.{
  ℕ, String, ◌<>◌, Bool, true, false, none, some, Option, List, [], ◌∷◌, if◌then◌else◌, all,
}
use py_youwol.Prelude.Dict.{Dict, get as find, keys, member}
use py_youwol.Prelude.Exec.{
  Result, ok, err, then_ok, value_error, runtime_error, type_error, Exec, pure, raise, lift, ◌>>=◌,
  ◌>>◌,
}
use py_youwol.Cache.{
  Scalar, text, flag, Json, string, object, ttl, LocalCacheClient, get, set, delete,
}
use py_youwol.Accounts.Tokens.{
  seconds, OidcClient, Tokens, delete_saved, id_token, save_tokens, restore_tokens,
  restore_tokens_from_session_id,
}

pub record AuthorizationFlow : Type 0 where
  pub ref : String
  pub target_uri : String
  pub code_verifier : String
  pub nonce : String

pub record LogoutFlow : Type 0 where
  pub ref : String
  pub target_uri : String
  pub forget_me : Bool

-- `AuthorizationFlow.cache_key`
unfoldable pub auth_flow_key : String → String
auth_flow_key uuid = "auth_flow_state" <> ("_" <> uuid)

-- `LogoutFlow.cache_key`
unfoldable pub logout_flow_key : String → String
logout_flow_key uuid = "logout_flow_state" <> ("_" <> uuid)

-- A keyword argument that is a text; nothing stores another value there.
abbrev pub text_of : String → Dict Scalar → Result String
text_of name state_data = elim (find name state_data) [ some (text s) ↦ ok s | _ ↦ err type_error ]

abbrev pub flag_of : String → Dict Scalar → Result Bool
flag_of name state_data = elim (find name state_data) [ some (flag b) ↦ ok b | _ ↦ err type_error ]

-- No keyword but the fields: the others are a `TypeError`.
abbrev pub only : List String → Dict Scalar → Result (Unit {0})
only fields state_data =
    if all (λ k. member k fields) (keys state_data) then ok tt else err type_error

-- `AuthorizationFlow(cache=self.__cache, **flow_state_data)`
unfoldable pub to_auth_flow : Dict Scalar → Result AuthorizationFlow
to_auth_flow state_data =
    then_ok (only ("ref" ∷ "target_uri" ∷ "code_verifier" ∷ "nonce" ∷ []) state_data) (λ u.
      then_ok (text_of "ref" state_data) (λ ref.
        then_ok (text_of "target_uri" state_data) (λ target_uri.
          then_ok (text_of "code_verifier" state_data) (λ code_verifier.
            then_ok (text_of "nonce" state_data) (λ nonce. ok (record {
              ref = ref;
              target_uri = target_uri;
              code_verifier = code_verifier;
              nonce = nonce;
            }))))))

-- `LogoutFlow(cache=self.__cache, **flow_state_data)`
unfoldable pub to_logout_flow : Dict Scalar → Result LogoutFlow
to_logout_flow state_data =
    then_ok (only ("ref" ∷ "target_uri" ∷ "forget_me" ∷ []) state_data) (λ u.
      then_ok (text_of "ref" state_data) (λ ref.
        then_ok (text_of "target_uri" state_data) (λ target_uri.
          then_ok (flag_of "forget_me" state_data) (λ forget_me.
            ok (record { ref = ref; target_uri = target_uri; forget_me = forget_me })))))

-- `Flow.save`, with the key and the object of the flow
abbrev pub save : ℕ → String → Dict Scalar → Exec LocalCacheClient (Unit {0})
save now key fields c = (ok tt, set (seconds now) key (object fields) (ttl 300) c)

-- `self.__cache.get(key)`
abbrev pub cached : ℕ → String → Exec LocalCacheClient (Option Json)
cached now key c = (ok (get (seconds now) key c), c)

-- `flow_state.delete()`
abbrev pub delete_flow : String → Exec LocalCacheClient (Unit {0})
delete_flow key c = (ok tt, delete key c)

-- The test of the cached state by `handle_authorization_flow_callback`, before that for `None`.
abbrev pub auth_flow_of : Option Json → Result AuthorizationFlow
auth_flow_of (some (object state_data)) = to_auth_flow state_data
auth_flow_of (some (string s)) = err value_error
auth_flow_of none = err value_error

abbrev pub logout_flow_of : Option Json → Result LogoutFlow
logout_flow_of (some (object state_data)) = to_logout_flow state_data
logout_flow_of (some (string s)) = err value_error
logout_flow_of none = err runtime_error

-- `expected_events_claim`
abbrev pub expected_events_claim : String
expected_events_claim = "http://schemas.openid.net/event/backchannel-logout"

abbrev pub some_or_raise : {A : Type 0} → Option A → Exec LocalCacheClient A
some_or_raise none = raise runtime_error
some_or_raise (some a) = pure a

abbrev pub guard : Bool → Exec LocalCacheClient (Unit {0})
guard true = pure tt
guard false = raise runtime_error

module _ (oidc : OidcClient) (now : ℕ) where
  unfoldable pub init_authorization_flow :
      String → String → Option String → String → Exec LocalCacheClient String
  init_authorization_flow fresh target_uri login_hint callback_uri = do
    (url, code_verifier, nonce) ← lift (oidc.auth_flow_url fresh callback_uri login_hint)
    save now (auth_flow_key fresh) (
        ("ref", text fresh)
        ∷ ("target_uri", text target_uri)
        ∷ ("code_verifier", text code_verifier)
        ∷ ("nonce", text nonce)
        ∷ [])
    pure url

  unfoldable pub handle_authorization_flow_callback :
      String → String → String → String → Exec LocalCacheClient (Tokens × String)
  handle_authorization_flow_callback flow_ref code callback_uri tokens_id = do
    state_data ← cached now (auth_flow_key flow_ref)
    flow_state ← lift (auth_flow_of state_data)
    delete_flow (auth_flow_key flow_state.ref)
    tokens_data ←
        lift (oidc.auth_flow_handle_cb code flow_state.code_verifier callback_uri flow_state.nonce)
    tokens ← save_tokens now tokens_id tokens_data
    pure (tokens, flow_state.target_uri)

  unfoldable pub direct_auth_flow : String → String → String → Exec LocalCacheClient Tokens
  direct_auth_flow username password tokens_id = do
    tokens_data ← lift (oidc.direct_flow username password)
    save_tokens now tokens_id tokens_data

  unfoldable pub init_logout_flow :
      String → String → Bool → String → String → Exec LocalCacheClient String
  init_logout_flow fresh target_uri forget_me callback_uri tokens_id = do
    save now (logout_flow_key fresh)
        (("ref", text fresh) ∷ ("target_uri", text target_uri) ∷ ("forget_me", flag forget_me) ∷ [])
    restored ← restore_tokens oidc now tokens_id
    tokens ← some_or_raise restored
    hint ← id_token now tokens
    lift (oidc.logout_url fresh callback_uri hint)

  unfoldable pub handle_logout_flow_callback : String → Exec LocalCacheClient (String × Bool)
  handle_logout_flow_callback flow_ref = do
    state_data ← cached now (logout_flow_key flow_ref)
    flow_state ← lift (logout_flow_of state_data)
    delete_flow (logout_flow_key flow_state.ref)
    pure (flow_state.target_uri, flow_state.forget_me)

  unfoldable pub handle_logout_back_channel : String → Exec LocalCacheClient (Unit {0})
  handle_logout_back_channel logout_token = do
    decoded ← lift (oidc.token_decode logout_token)
    sid ← some_or_raise decoded.sid
    events ← some_or_raise decoded.events
    guard (member expected_events_claim events)
    if decoded.has_nonce then raise runtime_error else pure tt
    restored ← restore_tokens_from_session_id oidc now sid
    tokens ← some_or_raise restored
    delete_saved tokens
