-- ===== src/Assets/Models.antt =====
-- src/youwol/utils/http_clients/assets_backend/models.py: the policies, the bodies, the responses and
-- the tables; and the state of the backend (configurations.py).
use py_youwol.Prelude.{
  ℕ, zero, suc, String, ◌≡◌, Bool, Option, none, some, List, [], ◌∷◌, ◌==◌, ◌<>◌, if◌then◌else◌,
}
use py_youwol.Prelude.Int.{ℤ, pos, negsuc}
use py_youwol.Prelude.Text.{strip_prefix, int, str}
use py_youwol.Prelude.Exec.{Result, ok, err, key_error, value_error}
use py_youwol.DocDb.Models.{TableBody}
use py_youwol.DocDb.Local.{LocalDocDb}

pub data ReadPolicyEnum : Type 0 where
  forbidden authorized owning expiration_date : ReadPolicyEnum

pub data SharePolicyEnum : Type 0 where
  share_forbidden share_authorized : SharePolicyEnum

-- The values of the two enumerations.
abbrev pub read_value : ReadPolicyEnum → String
read_value forbidden = "forbidden"
read_value authorized = "authorized"
read_value owning = "owning"
read_value expiration_date = "expiration-date"

abbrev pub share_value : SharePolicyEnum → String
share_value share_forbidden = "forbidden"
share_value share_authorized = "authorized"

-- `ReadPolicyEnumFactory[value]`
unfoldable pub read_policy : String → Result ReadPolicyEnum
read_policy value =
    if value == "forbidden"
    then ok forbidden
    else if value == "authorized"
    then ok authorized
    else if value == "owning"
    then ok owning
    else if value == "expiration-date"
    then ok expiration_date
    else err key_error

-- `SharePolicyEnumFactory[value]`
unfoldable pub share_policy : String → Result SharePolicyEnum
share_policy value =
    if value == "forbidden"
    then ok share_forbidden
    else if value == "authorized"
    then ok share_authorized
    else err key_error

-- The parameters of a policy, JSON objects of which the code reads `["period"]` only:
-- `json.dumps`, `json.loads`, and the object `{}`.
pub record Json : Type 1 where
  pub Parameters : Type 0
  pub dumps : Parameters → String
  pub loads : String → Result Parameters
  pub period : Parameters → Result ℤ
  pub nothing : Parameters

pub record IsJson (j : Json) : Type 0 where
  pub loads-dumps : (p : j.Parameters) → j.loads (j.dumps p) ≡ ok p
  pub loads_nothing : j.loads "{}" ≡ ok j.nothing
  pub period_nothing : j.period j.nothing ≡ err key_error

pub record AccessPolicyBody (P : Type 0) : Type 0 where
  pub read : ReadPolicyEnum
  pub share : SharePolicyEnum
  pub parameters : P

pub record AccessPolicyResp (P : Type 0) : Type 0 where
  pub read : ReadPolicyEnum
  pub share : SharePolicyEnum
  pub parameters : P
  pub timestamp : Option ℤ

pub record PermissionsResp : Type 0 where
  pub write : Bool
  pub read : Bool
  pub share : Bool
  pub expiration : Option ℤ

pub record OwningGroup : Type 0 where
  pub name : String
  pub group_id : String

pub record GroupAccess : Type 0 where
  pub read : ReadPolicyEnum
  pub share : SharePolicyEnum
  pub expiration : Option String

pub record ExposingGroup : Type 0 where
  pub name : String
  pub group_id : String
  pub access : GroupAccess

pub record OwnerInfo : Type 0 where
  pub exposing_groups : List ExposingGroup
  pub default_access : GroupAccess

pub record AccessInfoResp : Type 0 where
  pub owning_group : OwningGroup
  pub owner_info : OwnerInfo
  pub consumer_info : PermissionsResp

-- The lists of texts `images`, `thumbnails` and `tags`, which no modelled code opens, stand as
-- their JSON text.
pub record AssetResponse : Type 0 where
  pub asset_id : String
  pub kind : String
  pub raw_id : String
  pub name : String
  pub images : String
  pub thumbnails : String
  pub tags : String
  pub description : String
  pub group_id : String

pub record NewAssetBody (P : Type 0) : Type 0 where
  pub asset_id : Option String
  pub raw_id : String
  pub kind : String
  pub group_id : Option String
  pub name : String
  pub description : String
  pub tags : String
  pub default_access_policy : AccessPolicyBody P

pub record PostAssetBody (P : Type 0) : Type 0 where
  pub name : Option String
  pub description : Option String
  pub tags : Option String
  pub group_id : Option String
  pub default_access_policy : Option (AccessPolicyBody P)

abbrev pub assets_table : TableBody
assets_table = record {
  name = "entities";
  columns =
      "asset_id" ∷ "related_id" ∷ "group_id" ∷ "kind" ∷ "name" ∷ "images" ∷ "thumbnails" ∷ "tags"
      ∷ "description" ∷ [];
  partition_key = "asset_id" ∷ [];
  clustering_columns = [];
  clustering_order = [];
}

abbrev pub access_policy : TableBody
access_policy = record {
  name = "access_policy";
  columns =
      "asset_id" ∷ "related_id" ∷ "consumer_group_id" ∷ "read" ∷ "share" ∷ "parameters"
      ∷ "timestamp" ∷ [];
  partition_key = "asset_id" ∷ [];
  clustering_columns = "consumer_group_id" ∷ [];
  clustering_order = record { name = "consumer_group_id"; order = "ASC" } ∷ [];
}

-- The two tables; the paths of the files of the file system, with those of
-- metadata; the paths of the storage, each with its owner.
pub record Configuration : Type 0 where
  pub doc_db_asset : LocalDocDb
  pub doc_db_access_policy : LocalDocDb
  pub file_system : List String
  pub storage : List (String × String)

-- A column of numbers holds them in decimal.
abbrev pub number_text : ℤ → String
number_text (pos n) = str n
number_text (negsuc n) = "-" <> str (suc n)

abbrev negated : ℕ → ℤ
negated zero = pos 0
negated (suc n) = negsuc n

unfoldable pub number_of : String → Result ℤ
number_of text = elim (strip_prefix "-" text) [
  | some digits ↦ elim (int digits) [ none ↦ err value_error | some n ↦ ok (negated n) ]
  | none ↦ elim (int text) [ none ↦ err value_error | some n ↦ ok (pos n) ]
]
