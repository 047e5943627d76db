-- ===== src/Examples/Assets.antt =====
-- The theorems of groups and assets at the asset of the sample.
use py_youwol.Prelude.{String, true, false, ◌≡◌, refl, ◌↔◌, [], ◌∷◌, ◌<>◌, any}
use py_youwol.Prelude.Exec.{ok, err, http, then_ok}
use py_youwol.Groups.{to_group_id, is_child_group, ancestors_group_id}
use py_youwol.Groups.Laws.{is_child_group-prefix}
use py_youwol.Groups.Ancestors.{path_of, ancestors_group_id-parent}
use py_youwol.Assets.Models.{PermissionsResp}
use py_youwol.Assets.Access.{
  put_access_policy, delete_access_policy, get_specific_policy, get_access_policy,
}
use py_youwol.Assets.Permissions.{get_permission, get_permissions}
use py_youwol.Assets.Handlers.{create_asset, get_asset}
use py_youwol.Assets.Invariant.Serve.{serve, serve-IsAssets}
use py_youwol.Assets.Laws.Tables.{IsAssets, policy_at}
use py_youwol.Assets.Laws.Policies.{
  as_put, put_access_policy-get_specific_policy, delete_access_policy-get_specific_policy,
}
use py_youwol.Assets.Laws.Inherited.{nearest, get_access_policy-nearest}
use py_youwol.Assets.Laws.Permission.{is_readable, is_shared, get_permission-readable}
use py_youwol.Assets.Laws.Permissions.{is_owner_group, IsPermission, get_permissions_lem}
use py_youwol.Assets.Laws.Sharing.{put_access_policy-get_permissions}
use py_youwol.Assets.Laws.Creation.{as_created, default_policy, create_asset-get_asset}
use py_youwol.Examples.AssetSample.{
  plain, plain-IsBase64, period_json, period_json-IsJson, asset_doc, policy_doc, state,
  state-IsAssets, policy_doc-IsRule, rules, users-IsScope, admins-IsScope, users-IsName,
  admins-IsName, admins_root-IsScope, users_path-IsScope, admins_path-IsScope, reader,
  reader_groups, reader_groups_found, same, same-IsDistinct, scope_of_admins, scopes_of_reader,
  opening, readers_apart, readers_above, new_body, requests,
}

is_child_group-prefix_example :
    (is_child_group plain
        (to_group_id plain "/youwol-users/admins")
        (to_group_id plain "/youwol-users")
      ≡ ok true)
    ↔ ((rest : String) × ("/youwol-users/admins" ≡ "/youwol-users" <> rest))
is_child_group-prefix_example =
    is_child_group-prefix plain plain-IsBase64 "/youwol-users/admins" "/youwol-users" admins-IsScope
      users-IsScope

ancestors_group_id-parent_example :
    (ancestors_group_id plain (to_group_id plain (path_of ("admins" ∷ []))) ≡ ok [])
    × (ancestors_group_id plain (to_group_id plain (path_of ("youwol-users" ∷ "admins" ∷ [])))
        ≡ then_ok
            (ancestors_group_id plain (to_group_id plain (path_of ("youwol-users" ∷ []))))
            (λ above. ok (to_group_id plain (path_of ("youwol-users" ∷ [])) ∷ above)))
    × (is_child_group plain
          (to_group_id plain (path_of ("youwol-users" ∷ "admins" ∷ [])))
          (to_group_id plain (path_of ("youwol-users" ∷ [])))
        ≡ ok true)
ancestors_group_id-parent_example =
    ancestors_group_id-parent plain plain-IsBase64 [] "youwol-users" "admins" (users-IsName, tt)
      admins-IsName users_path-IsScope admins_path-IsScope admins_root-IsScope

get_permissions_lem_example :
    (p : PermissionsResp) × (get_permissions plain period_json same reader "a1" 120 state
      ≡ (ok p, state))
    × IsPermission period_json "a1" state 120
        (any (is_owner_group plain "/youwol-users/admins") reader_groups)
        reader_groups
        p
get_permissions_lem_example =
    get_permissions_lem plain period_json same state state-IsAssets "a1" rules same-IsDistinct
      reader 120 asset_doc "/youwol-users/admins" reader_groups refl refl reader_groups_found
      scope_of_admins scopes_of_reader

put_access_policy-get_permissions_example :
    (p : PermissionsResp) × ((get_permissions plain period_json same reader "a1" 500
        (put_access_policy period_json "a1" "/youwol-users" opening 200 state).1).0
      ≡ ok p)
    × (p.read ≡ true)
    × (p.write ≡ any (is_owner_group plain "/youwol-users/admins") reader_groups)
put_access_policy-get_permissions_example =
    put_access_policy-get_permissions period_json "a1" "r1" "/youwol-users" opening 200 refl state
      state-IsAssets rules plain same same-IsDistinct reader 500 asset_doc "/youwol-users/admins"
      reader_groups refl refl refl reader_groups_found scope_of_admins scopes_of_reader refl

put_access_policy-get_specific_policy_example :
    ((put_access_policy period_json "a1" "/youwol-users" opening 200 state).0 ≡ ok tt)
    × ((get_specific_policy period_json "a1" "/youwol-users"
          (put_access_policy period_json "a1" "/youwol-users" opening 200 state).1).0
        ≡ ok (as_put period_json opening 200))
put_access_policy-get_specific_policy_example =
    put_access_policy-get_specific_policy period_json state state-IsAssets "a1" "/youwol-users"
      opening 200 period_json-IsJson asset_doc "r1" refl refl "a1" "/youwol-users"

delete_access_policy-get_specific_policy_example :
    ((delete_access_policy "a1" "/youwol-users/readers" state).0 ≡ ok tt)
    × ((get_specific_policy period_json "a1" "/youwol-users/readers"
          (delete_access_policy "a1" "/youwol-users/readers" state).1).0
        ≡ err (http 404))
delete_access_policy-get_specific_policy_example =
    delete_access_policy-get_specific_policy period_json state state-IsAssets "a1"
      "/youwol-users/readers" "a1" "/youwol-users/readers"

get_access_policy-nearest_example :
    get_access_policy period_json plain true "a1" "/youwol-users/readers" state ≡ (
      nearest period_json
          (λ h. policy_at "a1" h state)
          ("/youwol-users/readers" ∷ "/youwol-users" ∷ "*" ∷ []),
      state,
    )
get_access_policy-nearest_example =
    get_access_policy-nearest period_json plain state state-IsAssets "a1" "/youwol-users/readers"
      asset_doc "/youwol-users/admins" false ("/youwol-users" ∷ []) refl refl readers_apart
      readers_above

get_permission-readable_example :
    (p : PermissionsResp) × (get_permission period_json 149 false (policy_doc ∷ []) ≡ ok p)
    × (p.read ≡ any (is_readable period_json 149) (policy_doc ∷ []))
    × (p.share ≡ any is_shared (policy_doc ∷ []))
    × (p.write ≡ false)
get_permission-readable_example =
    get_permission-readable period_json 149 false (policy_doc ∷ []) (policy_doc-IsRule, tt)

create_asset-get_asset_example :
    ((create_asset plain reader new_body 300 state).0
      ≡ ok (as_created period_json plain reader new_body 300))
    × ((get_asset "r2" (create_asset plain reader new_body 300 state).1).0
        ≡ ok (as_created period_json plain reader new_body 300))
    × ((get_specific_policy period_json "r2" "*" (create_asset plain reader new_body 300 state).1).0
        ≡ ok (default_policy period_json plain reader new_body 300))
create_asset-get_asset_example =
    create_asset-get_asset period_json plain reader new_body 300 state state-IsAssets
      period_json-IsJson "r2" "*"

serve-IsAssets_example : IsAssets (serve plain period_json same (λ date. "") requests state)
serve-IsAssets_example =
    serve-IsAssets plain period_json same (λ date. "") requests state state-IsAssets
