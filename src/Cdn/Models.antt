-- ===== src/Cdn/Models.antt =====
-- src/youwol/utils/http_clients/cdn_backend/models.py: libraries and their queries.
use py_youwol.Prelude.{String, ◌<>◌, List}

pub record LibraryQuery : Type 0 where
  pub name : String
  pub version : String

-- `type` is the text of a `WebpmLibraryType`.
pub record LibraryResolved : Type 0 where
  pub name : String
  pub version : String
  pub id : String
  pub namespace : String
  pub kind : String
  pub fingerprint : String
  pub exported_symbol : String
  pub aliases : List String
  pub api_key : String
  pub bundle : String
  pub dependencies : List LibraryQuery

unfoldable pub full_exported_symbol : LibraryResolved → String
full_exported_symbol lib = lib.exported_symbol <> ("_APIv" <> lib.api_key)

pub record ResolvedQuery : Type 0 where
  pub name : String
  pub query : String
  pub version : String
  pub exported_symbol : String
  pub parent : LibraryResolved

unfoldable pub get_query_key : LibraryQuery → String
get_query_key lib = lib.name <> ("#" <> lib.version)
