-- ===== src/Examples/Sessions.antt =====
-- A cache with the tokens of one session, and a provider.
use py_youwol.Prelude.{ℕ, String, ◌≡◌, refl, false, none, some, [], ◌∷◌, if◌then◌else◌, ◌==◌, arith}
use py_youwol.Prelude.Exec.{ok, err, runtime_error, value_error, ◌>>=◌, pure, lift, raise}
use py_youwol.Cache.{string, ttl, LocalCacheClient, name_to_key, get, set, delete, clear_expired}
use py_youwol.Cache.Laws.{get-set, get-clear_expired}
use py_youwol.Accounts.Tokens.{
  TokensData, read_tokens, write_tokens, cache_token_key, cache_sid_key, get_tokens, get_by_sid,
  delete_tokens, store, LogoutToken, OidcClient, refresh, access_token, restore_tokens,
  restore_tokens_from_session_id,
}
use py_youwol.Accounts.Flows.{
  init_authorization_flow, handle_authorization_flow_callback, handle_logout_back_channel,
}
use py_youwol.Accounts.Laws.Storage.{get_by_sid-store}
use py_youwol.Accounts.Laws.Restore.{IsRestored, restore_tokens-IsRestored, restore_tokens-none}
use py_youwol.Accounts.Laws.Logout.{handle_logout_back_channel-ends}
use py_youwol.Accounts.Laws.Login.{
  handle_authorization_flow_callback-init, handle_authorization_flow_callback-once,
}

abbrev tokens : String → ℕ → TokensData
tokens refresh_token expires_at = record {
  id_token = "i";
  access_token = "a";
  refresh_token = refresh_token;
  expires_at = expires_at;
  refresh_expires_at = 90000000;
  session_state = "s";
}

abbrev oidc : OidcClient
oidc = record {
  refresh = λ t. if t == "r" then ok (tokens "q" 50000000) else err runtime_error;
  auth_flow_url = λ state uri hint. ok ("url", "verifier", "nonce");
  auth_flow_handle_cb = λ code verifier uri nonce.
      if code == "code" then ok (tokens "r" 5000000) else err runtime_error;
  direct_flow = λ name password. err runtime_error;
  logout_url = λ state uri hint. ok "out";
  token_decode = λ t. ok (record {
    sid = some "s";
    events = some ("http://schemas.openid.net/event/backchannel-logout" ∷ []);
    has_nonce = false;
  });
}

abbrev empty : LocalCacheClient
empty = record { prefix = "auth_cache"; cache = [] }

abbrev filled : String → LocalCacheClient
filled refresh_token = (store 0 "id" (tokens refresh_token 5000000) empty).1

get-set_example : get 4 "b" (set 3 "a" (string "x") (ttl 5) empty) ≡ get 4 "b" empty
unfolding get set name_to_key
get-set_example = get-set 3 4 "a" "b" (string "x") (ttl 5) empty

abbrev two_entries : LocalCacheClient
two_entries = record {
  prefix = "p";
  cache =
      ("p_a", record { value = string "x"; expire_at = 4 })
      ∷ ("p_b", record { value = string "y"; expire_at = 9 })
      ∷ [];
}

get-clear_expired_example : get 8 "b" (clear_expired 6 two_entries) ≡ get 8 "b" two_entries
get-clear_expired_example = get-clear_expired 6 8 "b" two_entries (refl, (refl, tt)) (omega arith)

get_by_sid-store_example :
    (get_by_sid 7000000 "s" (filled "r")).0 ≡ ok (some "id", some (tokens "r" 5000000))
get_by_sid-store_example = get_by_sid-store 0 7000000 "id" (tokens "r" 5000000) empty

restored :
    (restore_tokens oidc 7000000 "id" (filled "r")).0
    ≡ ok (some (record { id = "id"; tokens_data = tokens "q" 50000000 }))
unfolding restore_tokens get_tokens store access_token refresh get set delete read_tokens
    write_tokens name_to_key cache_token_key cache_sid_key ◌>>=◌ pure lift raise
restored = refl

restore_tokens-IsRestored_example :
    (d : TokensData) × ((get_tokens 7000000 "id" (filled "r")).0 ≡ ok (some d))
    × IsRestored oidc 7000000 "id"
        (filled "r")
        d
        (restore_tokens oidc 7000000 "id" (filled "r")).1
        (record { id = "id"; tokens_data = tokens "q" 50000000 })
restore_tokens-IsRestored_example =
    restore_tokens-IsRestored oidc 7000000 "id" (filled "r")
      (record { id = "id"; tokens_data = tokens "q" 50000000 }) restored

not_restored : (restore_tokens oidc 7000000 "id" (filled "x")).0 ≡ ok none
unfolding restore_tokens get_tokens store delete_tokens access_token refresh get set delete
    read_tokens write_tokens name_to_key cache_token_key cache_sid_key ◌>>=◌ pure lift raise
not_restored = refl

restore_tokens-none_example :
    (get_tokens 8000000 "id" (restore_tokens oidc 7000000 "id" (filled "x")).1).0 ≡ ok none
restore_tokens-none_example =
    restore_tokens-none oidc 7000000 8000000 "id" (filled "x") (omega arith) not_restored

logged_out : (handle_logout_back_channel oidc 7000000 "token" (filled "r")).0 ≡ ok tt
unfolding handle_logout_back_channel restore_tokens_from_session_id get_by_sid restore_tokens
    get_tokens store delete_tokens access_token refresh get set delete read_tokens write_tokens
    name_to_key cache_token_key cache_sid_key ◌>>=◌ pure lift raise
logged_out = refl

handle_logout_back_channel-ends_example :
    (decoded : LogoutToken) × (sid : String) × (oidc.token_decode "token" ≡ ok decoded)
    × (decoded.sid ≡ some sid)
    × ((restore_tokens_from_session_id oidc 8000000 sid
          (handle_logout_back_channel oidc 7000000 "token" (filled "r")).1).0
        ≡ ok none)
handle_logout_back_channel-ends_example =
    handle_logout_back_channel-ends oidc 7000000 8000000 "token" (filled "r") logged_out

abbrev begun : LocalCacheClient
begun = (init_authorization_flow oidc 0 "ref" "target" none "uri" empty).1

handle_authorization_flow_callback-init_example :
    (handle_authorization_flow_callback oidc 7000000 "ref" "code" "uri" "id" begun).0
    ≡ ok (record { id = "id"; tokens_data = tokens "r" 5000000 }, "target")
handle_authorization_flow_callback-init_example =
    handle_authorization_flow_callback-init oidc 0 "ref" "target" none "uri" empty "url" "verifier"
      "nonce" refl 7000000 "code" "id"

handle_authorization_flow_callback-once_example :
    (handle_authorization_flow_callback oidc 8000000 "ref" "code" "uri" "other"
      (handle_authorization_flow_callback oidc 7000000 "ref" "code" "uri" "id" begun).1).0
    ≡ err value_error
handle_authorization_flow_callback-once_example =
    handle_authorization_flow_callback-once oidc 0 "ref" "target" none "uri" empty "url" "verifier"
      "nonce" refl 7000000 "code" "id" 8000000 "code" "uri" "other" (omega arith)
