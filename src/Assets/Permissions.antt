-- ===== src/Assets/Permissions.antt =====
-- src/youwol/backends/assets/routers/permissions.py: what a user may do with an asset.
use py_youwol.Prelude.{
  ℕ, String, Bool, true, false, none, some, List, [], ◌∷◌, ◌++◌, map, ◌==◌, if◌then◌else◌,
}
use py_youwol.Prelude.Int.{ℤ, pos, ◌+ℤ◌, ◌-ℤ◌, ltb_ℤ}
use py_youwol.Prelude.Exec.{Result, ok, then_ok, Exec, pure, lift, ◌>>=◌, gather}
use py_youwol.DocDb.Models.{Doc, field_of, QueryBody}
use py_youwol.DocDb.Local.{equals, filter_docs}
use py_youwol.Groups.{
  Base64, User, to_group_scope, is_child_group, ancestors_group_id, get_leaf_group_ids,
}
use py_youwol.Assets.Models.{
  Json, AccessPolicyResp, PermissionsResp, ExposingGroup, AccessInfoResp, Configuration, number_of,
}
use py_youwol.Assets.Docs.{format_policy}
use py_youwol.Assets.Store.{db_get, query_policies, get_asset_implementation}
use py_youwol.Assets.Access.{query_body, flatten_docs, get_access_policy}

-- `policy[column] == value`
abbrev pub field_is : String → String → Doc → Result Bool
field_is column value policy = then_ok (field_of policy column) (λ text. ok (text == value))

-- `any(... for policy in policies)`, which ends at the first that is true.
unfoldable pub any_of : (Doc → Result Bool) → List Doc → Result Bool
any_of test [] = ok false
any_of test (policy ∷ policies) =
    then_ok (test policy) (λ found. if found then ok true else any_of test policies)

-- `policy["timestamp"] + json.loads(policy["parameters"])["period"]`
abbrev pub expiration_of : Json → Doc → Result ℤ
expiration_of j policy = then_ok (field_of policy "timestamp") (λ timestamp_text.
    then_ok (number_of timestamp_text) (λ timestamp.
      then_ok (field_of policy "parameters") (λ parameters_text.
        then_ok (j.loads parameters_text)
          (λ parameters. then_ok (j.period parameters) (λ period. ok (timestamp +ℤ period))))))

abbrev pub expirations_of : Json → List Doc → Result (List ℤ)
expirations_of j [] = ok []
expirations_of j (policy ∷ policies) =
    then_ok (expiration_of j policy) (λ e. then_ok (expirations_of j policies) (λ es. ok (e ∷ es)))

-- `max`
abbrev pub max_ℤ : ℤ → ℤ → ℤ
max_ℤ a b = if ltb_ℤ a b then b else a

unfoldable pub latest : ℤ → List ℤ → ℤ
latest e [] = e
latest e (f ∷ es) = latest (max_ℤ e f) es

abbrev pub no_permission : Bool → Bool → PermissionsResp
no_permission write share = record { write = write; read = false; share = share; expiration = none }

-- From the expirations of the deadlines, and the second `now`.
unfoldable pub permission_until : Bool → Bool → ℕ → List ℤ → PermissionsResp
unfolding latest ◌-ℤ◌
permission_until write share now [] = no_permission write share
permission_until write share now (e ∷ es) =
    let remaining = latest e es -ℤ pos now in
    record {
      write = write;
      read = ltb_ℤ (pos 0) remaining;
      share = share;
      expiration = some remaining;
    }

-- `get_permission` once there are policies.
unfoldable pub permission_of : Json → ℕ → Bool → List Doc → Result PermissionsResp
unfolding any_of filter_docs permission_until ◌+ℤ◌
permission_of j now write policies =
    then_ok (any_of (field_is "read" "authorized") policies) (λ opened.
      then_ok (any_of (field_is "share" "authorized") policies) (λ share.
        if opened
        then ok (record { write = write; read = true; share = share; expiration = none })
        else then_ok (filter_docs (field_is "read" "expiration-date") policies) (λ deadlines.
          then_ok (expirations_of j deadlines)
            (λ expirations. ok (permission_until write share now expirations)))))

unfoldable pub get_permission : Json → ℕ → Bool → List Doc → Result PermissionsResp
unfolding permission_of
get_permission j now write [] = ok (no_permission false false)
get_permission j now write (policy ∷ others) = permission_of j now write (policy ∷ others)

-- `any(is_child_group(group_id, parent) for group_id in group_ids)`
unfoldable pub any_child : Base64 → List String → String → Result Bool
any_child c [] parent_group_id = ok false
any_child c (group_id ∷ group_ids) parent_group_id =
    then_ok (is_child_group c group_id parent_group_id)
      (λ found. if found then ok true else any_child c group_ids parent_group_id)

-- `[group_id] + ancestors_group_id(group_id)` for every group.
unfoldable pub with_ancestors : Base64 → List String → Result (List String)
with_ancestors c [] = ok []
with_ancestors c (group_id ∷ group_ids) =
    then_ok (ancestors_group_id c group_id)
      (λ above. then_ok (with_ancestors c group_ids) (λ rest. ok ((group_id ∷ above) ++ rest)))

-- Whether the default policy gives reading and sharing.
unfoldable pub is_open : List Doc → Result Bool
is_open [] = ok false
is_open (doc ∷ docs) =
    then_ok (field_is "read" "authorized" doc)
      (λ read. if read then field_is "share" "authorized" doc else ok false)

abbrev pub policies_query : String → QueryBody
policies_query asset_id = record {
  max_results = 1000;
  select_clauses = [];
  query = record { where_clause = equals ("asset_id", asset_id) ∷ []; ordering_clause = [] };
}

-- `distinct` is `list(set(...))`, in the order that the set has.
module _ (c : Base64) (j : Json) (distinct : List String → List String) where
  unfoldable pub get_policies_permission :
      String → List String → ℕ → Exec Configuration PermissionsResp
  get_policies_permission asset_id group_ids now = do
    specifics ← gather (map (λ g. query_policies (query_body asset_id g)) group_ids)
    lift (get_permission j now false (flatten_docs specifics))

  abbrev pub full_permission : Bool → PermissionsResp
  full_permission write = record { write = write; read = true; share = true; expiration = none }

  -- For a user who does not own the asset.
  unfoldable pub get_consumer_permission :
      String → List String → ℕ → Exec Configuration PermissionsResp
  get_consumer_permission asset_id group_ids now = do
    default ← query_policies (query_body asset_id "*")
    opened ← lift (is_open default)
    if opened then pure (full_permission false) else get_policies_permission asset_id group_ids now

  -- `get_permissions_implementation`, at the second `now`.
  unfoldable pub get_permissions : User → String → ℕ → Exec Configuration PermissionsResp
  get_permissions user asset_id now = do
    all_group_ids ← lift (with_ancestors c (get_leaf_group_ids c user))
    let group_ids = distinct all_group_ids
    asset ← db_get asset_id
    owner_id ← lift (field_of asset "group_id")
    is_owner ← lift (any_child c group_ids owner_id)
    if is_owner then pure (full_permission true) else get_consumer_permission asset_id group_ids now

  -- `consumer_group_id` of the policies, but for the owner.
  unfoldable pub consumers : String → List Doc → Result (List String)
  consumers owner_id [] = ok []
  consumers owner_id (policy ∷ policies) = then_ok (field_of policy "consumer_group_id") (λ g.
      then_ok (consumers owner_id policies) (λ rest. ok (if g == owner_id then rest else g ∷ rest)))

  -- The groups, with their policies; the default policy has no entry.
  unfoldable pub exposing_groups :
      (ℤ → String) → List (String × AccessPolicyResp j.Parameters) → Result (List ExposingGroup)
  exposing_groups date [] = ok []
  exposing_groups date ((group, policy) ∷ rest) =
      if group == "*"
      then exposing_groups date rest
      else then_ok (to_group_scope c group) (λ name.
        then_ok (format_policy j date policy) (λ access.
          then_ok (exposing_groups date rest)
            (λ others. ok (record { name = name; group_id = group; access = access } ∷ others))))

  -- A group with its policy.
  abbrev pub with_policy :
      String → String → Exec Configuration (String × AccessPolicyResp j.Parameters)
  with_policy asset_id group_id = do
    policy ← get_access_policy j c true asset_id group_id
    pure (group_id, policy)

  -- No query returns more than its limit, so the test of the count is left out.
  unfoldable pub access_info : (ℤ → String) → User → String → ℕ → Exec Configuration AccessInfoResp
  access_info date user asset_id now = do
    policies ← query_policies (policies_query asset_id)
    asset ← get_asset_implementation asset_id
    permissions ← get_permissions user asset_id now
    owner_name ← lift (to_group_scope c asset.group_id)
    all_groups ← lift (consumers asset.group_id policies)
    policies_groups ← gather (map (with_policy asset_id) (distinct all_groups))
    default ← get_access_policy j c true asset_id "*"
    exposing ← lift (exposing_groups date policies_groups)
    default_access ← lift (format_policy j date default)
    pure (record {
      owning_group = record { name = owner_name; group_id = asset.group_id };
      owner_info = record { exposing_groups = exposing; default_access = default_access };
      consumer_info = permissions;
    })
