-- ===== src/Examples/Services.antt =====
-- A service that asks for its own token, with a margin of fifteen seconds.
use py_youwol.Prelude.{String, ◌≡◌, refl, none, [], arith}
use py_youwol.Prelude.Exec.{ok, err, runtime_error, value_error, ◌>>=◌, pure, raise, lift}
use py_youwol.Cache.{string, never, LocalCacheClient, name_to_key, get, set}
use py_youwol.Accounts.SessionLess.{
  SessionlessTokensData, SessionLessTokenManager, ask_token, get_access_token,
}
use py_youwol.Accounts.Laws.SessionLess.{get_access_token-again}

abbrev manager : SessionLessTokenManager
manager = record { cache_key = "service"; expires_at_threshold = 15 }

abbrev given : String → SessionlessTokensData
given token = record { access_token = token; expires_in = 300 }

abbrev empty : LocalCacheClient
empty = record { prefix = "services"; cache = [] }

abbrev asked : LocalCacheClient
asked = (get_access_token manager (ok (given "t")) 4000000 empty).1

-- At the deadline the provider is asked again.
renewed : (get_access_token manager (ok (given "u")) 289000000 asked).0 ≡ ok "u"
unfolding get_access_token ask_token get set name_to_key ◌>>=◌ pure raise lift
renewed = refl

refused : (get_access_token manager (err runtime_error) 289000000 asked).0 ≡ err runtime_error
unfolding get_access_token ask_token get set name_to_key ◌>>=◌ pure raise lift
refused = refl

-- Another kind of value under the key is an error.
not_an_object :
    (get_access_token manager (ok (given "t")) 4000000 (set 3 "service" (string "x") never empty)).0
    ≡ err value_error
unfolding get_access_token ask_token get set name_to_key ◌>>=◌ pure raise lift
not_an_object = refl

no_token : get 4 "service" empty ≡ none
unfolding get set name_to_key
no_token = refl

get_access_token-again_example :
    ((get_access_token manager (ok (given "t")) 4000000 empty).0 ≡ ok "t")
    × (get_access_token manager
          (err runtime_error)
          288999999
          (get_access_token manager (ok (given "t")) 4000000 empty).1
        ≡ (ok "t", (get_access_token manager (ok (given "t")) 4000000 empty).1))
get_access_token-again_example =
    get_access_token-again manager 4000000 (given "t") empty 288999999 (err runtime_error) no_token
      (ground arith)
