-- ===== src/Assets/Docs.antt =====
-- src/youwol/backends/assets/utils.py: documents and policies as they are returned.
use py_youwol.Prelude.{String, none, some}
use py_youwol.Prelude.Int.{ℤ, ◌+ℤ◌}
use py_youwol.Prelude.Exec.{Result, ok, err, type_error, then_ok, bind_ok as ◌>>=◌}
use py_youwol.DocDb.Models.{Doc, field_of}
use py_youwol.Assets.Models.{
  expiration_date, Json, AccessPolicyResp, GroupAccess, AssetResponse, number_of, read_policy,
  share_policy,
}

unfoldable pub format_asset : Doc → Result AssetResponse
format_asset doc = do
  asset_id ← field_of doc "asset_id"
  kind ← field_of doc "kind"
  raw_id ← field_of doc "related_id"
  name ← field_of doc "name"
  images ← field_of doc "images"
  thumbnails ← field_of doc "thumbnails"
  tags ← field_of doc "tags"
  description ← field_of doc "description"
  group_id ← field_of doc "group_id"
  ok (record {
    asset_id = asset_id;
    kind = kind;
    raw_id = raw_id;
    name = name;
    images = images;
    thumbnails = thumbnails;
    tags = tags;
    description = description;
    group_id = group_id;
  })

-- The response that the document of a policy stands for.
unfoldable pub policy_of_doc : (j : Json) → Doc → Result (AccessPolicyResp j.Parameters)
policy_of_doc j doc = do
  read_text ← field_of doc "read"
  read ← read_policy read_text
  parameters_text ← field_of doc "parameters"
  parameters ← j.loads parameters_text
  share_text ← field_of doc "share"
  share ← share_policy share_text
  timestamp_text ← field_of doc "timestamp"
  timestamp ← number_of timestamp_text
  ok (record { read = read; share = share; parameters = parameters; timestamp = some timestamp })

-- `policy.timestamp + policy.parameters["period"]`; the sum of `None` is a `TypeError`.
abbrev pub deadline_of : (j : Json) → AccessPolicyResp j.Parameters → Result ℤ
deadline_of j policy = then_ok (j.period policy.parameters) (λ period. elim policy.timestamp [
  | none ↦ err type_error
  | some timestamp ↦ ok (timestamp +ℤ period)
])

-- The two guards on unknown policies are for values that the enumerations do not have.
-- `date` is `str(datetime.fromtimestamp(...))`.
unfoldable pub format_policy :
    (j : Json) → (ℤ → String) → AccessPolicyResp j.Parameters → Result GroupAccess
unfolding ◌+ℤ◌
format_policy j date policy =
    then_ok
      (elim policy.read [
        | expiration_date ↦ then_ok (deadline_of j policy) (λ deadline. ok (some (date deadline)))
        | _ ↦ ok none
      ])
      (λ expiration.
        ok (record { read = policy.read; share = policy.share; expiration = expiration }))
