-- ===== src/Assets/Access.antt =====
-- src/youwol/backends/assets/routers/access.py: the endpoints on access policies.
use py_youwol.Prelude.{ℕ, String, Bool, true, false, none, List, [], ◌∷◌, ◌++◌, map, if◌then◌else◌}
use py_youwol.Prelude.Text.{str}
use py_youwol.Prelude.Exec.{Result, http, Exec, pure, raise, lift, ◌>>=◌, gather}
use py_youwol.DocDb.Models.{Doc, field_of, QueryBody}
use py_youwol.DocDb.Local.{equals}
use py_youwol.Groups.{Base64, is_child_group, ancestors_group_id}
use py_youwol.Assets.Models.{
  owning, share_authorized, read_value, share_value, Json, AccessPolicyBody, AccessPolicyResp,
  Configuration,
}
use py_youwol.Assets.Docs.{policy_of_doc}
use py_youwol.Assets.Store.{
  db_get, query_policies, create_policy, delete_policy, access_policy_record_id,
}

-- The document of a policy, written at the second `now`.
abbrev pub doc_access : String → String → String → String → String → String → ℕ → Doc
doc_access asset_id related_id group_id read share parameters now =
    ("record_id", access_policy_record_id asset_id group_id)
    ∷ ("asset_id", asset_id)
    ∷ ("related_id", related_id)
    ∷ ("consumer_group_id", group_id)
    ∷ ("read", read)
    ∷ ("share", share)
    ∷ ("parameters", parameters)
    ∷ ("timestamp", str now)
    ∷ []

unfoldable pub delete_access_policy : String → String → Exec Configuration (Unit {0})
delete_access_policy asset_id group_id =
    delete_policy (("asset_id", asset_id) ∷ ("consumer_group_id", group_id) ∷ [])

abbrev pub query_body : String → String → QueryBody
query_body asset_id for_group_id = record {
  max_results = 1;
  select_clauses = [];
  query = record {
    where_clause = equals ("asset_id", asset_id) ∷ equals ("consumer_group_id", for_group_id) ∷ [];
    ordering_clause = [];
  };
}

-- The document that stands for no policy at all.
abbrev pub closed : Doc
closed =
    ("read", "forbidden") ∷ ("parameters", "{}") ∷ ("timestamp", "-1") ∷ ("share", "forbidden") ∷ []

abbrev pub flatten_docs : List (List Doc) → List Doc
flatten_docs [] = []
flatten_docs (ds ∷ dss) = ds ++ flatten_docs dss

module _ (j : Json) where
  unfoldable pub put_access_policy :
      String → String → AccessPolicyBody j.Parameters → ℕ → Exec Configuration (Unit {0})
  put_access_policy asset_id group_id body now = do
    asset ← db_get asset_id
    related_id ← lift (field_of asset "related_id")
    create_policy (
        doc_access asset_id related_id group_id (read_value body.read) (share_value body.share)
          (j.dumps body.parameters) now)

  abbrev pub owning_policy : AccessPolicyResp j.Parameters
  owning_policy = record {
    read = owning;
    share = share_authorized;
    parameters = j.nothing;
    timestamp = none;
  }

  -- The first document, where there is one: `closed` is always there.
  abbrev pub first_policy : List Doc → Doc → Result (AccessPolicyResp j.Parameters)
  first_policy [] last = policy_of_doc j last
  first_policy (doc ∷ docs) last = policy_of_doc j doc

  abbrev pub policy_or_404 : List Doc → Exec Configuration (AccessPolicyResp j.Parameters)
  policy_or_404 [] = raise (http 404)
  policy_or_404 (doc ∷ docs) = lift (policy_of_doc j doc)

  -- `include_inherited` false.
  unfoldable pub get_specific_policy :
      String → String → Exec Configuration (AccessPolicyResp j.Parameters)
  get_specific_policy asset_id group_id = do
    docs ← query_policies (query_body asset_id group_id)
    policy_or_404 docs

  -- For a group that does not own the asset: the policies of the group and of the groups above it,
  -- the default one, and `closed`.
  unfoldable pub get_inherited_policy :
      Base64 → String → String → Exec Configuration (AccessPolicyResp j.Parameters)
  get_inherited_policy c asset_id group_id = do
    above ← lift (ancestors_group_id c group_id)
    specifics ← gather (map (λ g. query_policies (query_body asset_id g)) (group_id ∷ above))
    default ← query_policies (query_body asset_id "*")
    lift (first_policy (flatten_docs specifics ++ default) closed)

  unfoldable pub get_access_policy :
      Base64 → Bool → String → String → Exec Configuration (AccessPolicyResp j.Parameters)
  get_access_policy c false asset_id group_id = get_specific_policy asset_id group_id
  get_access_policy c true asset_id group_id = do
    asset ← db_get asset_id
    owner_id ← lift (field_of asset "group_id")
    is_owner ← lift (is_child_group c group_id owner_id)
    if is_owner then pure owning_policy else get_inherited_policy c asset_id group_id
