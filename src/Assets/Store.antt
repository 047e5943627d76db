-- ===== src/Assets/Store.antt =====
-- src/youwol/backends/assets/utils.py: the helpers on the tables, the documents and the files.
use py_youwol.Prelude.{
  String, Bool, true, false, not, ◌&&◌, Option, none, some, List, [], ◌∷◌, ◌==◌, ◌<>◌,
  if◌then◌else◌, select,
}
use py_youwol.Prelude.Text.{strip_prefix}
use py_youwol.Prelude.Dict.{member}
use py_youwol.Prelude.Exec.{Result, ok, Exec, pure, lift, ◌>>=◌, ◌>>◌}
use py_youwol.DocDb.Models.{Doc, field_of, QueryBody}
use py_youwol.DocDb.Local.{LocalDocDb, query, get_document}
use py_youwol.DocDb.Write.{update_document, delete_document}
use py_youwol.Assets.Docs.{format_asset}
use py_youwol.Groups.{Base64, User, get_user_group_ids}
use py_youwol.Assets.Models.{AssetResponse, Configuration}

-- `Constants.public_owner`
abbrev pub public_owner : String
public_owner = "/youwol-users"

-- The methods of the table of assets, and those of the table of policies.
unfoldable pub on_assets : {A : Type 0} → Exec LocalDocDb A → Exec Configuration A
on_assets m s = ((m s.doc_db_asset).0, record s { doc_db_asset = (m s.doc_db_asset).1 })

unfoldable pub on_policies : {A : Type 0} → Exec LocalDocDb A → Exec Configuration A
on_policies m s =
    ((m s.doc_db_access_policy).0, record s { doc_db_access_policy = (m s.doc_db_access_policy).1 })

abbrev pub get_asset_doc : String → LocalDocDb → Result Doc
get_asset_doc asset_id = get_document (("asset_id", asset_id) ∷ []) [] public_owner

unfoldable pub db_get : String → Exec Configuration Doc
db_get asset_id s = (get_asset_doc asset_id s.doc_db_asset, s)

unfoldable pub db_query : QueryBody → Exec Configuration (List Doc)
db_query body s = (query body public_owner s.doc_db_asset, s)

unfoldable pub db_post : Doc → Exec Configuration (Unit {0})
unfolding on_assets
db_post doc = on_assets (update_document doc public_owner)

-- `docdb_access.query`, `create_document` and `delete_document`
unfoldable pub query_policies : QueryBody → Exec Configuration (List Doc)
query_policies body s = (query body public_owner s.doc_db_access_policy, s)

unfoldable pub create_policy : Doc → Exec Configuration (Unit {0})
unfolding on_policies
create_policy doc = on_policies (update_document doc public_owner)

unfoldable pub delete_policy : Doc → Exec Configuration (Unit {0})
unfolding on_policies
delete_policy doc = on_policies (delete_document doc public_owner)

-- A path under the folder `prefix`.
abbrev pub is_under : String → String → Bool
is_under prefix path = elim (strip_prefix prefix path) [ none ↦ false | some rest ↦ true ]

-- `storage.delete_group`: the folder of the prefix with all that is in it.
unfoldable pub delete_group : String → String → Exec Configuration (Unit {0})
unfolding strip_prefix
delete_group prefix owner s = (
  ok tt,
  record s {
    storage = select (λ (o, path). not (o == owner && is_under (prefix <> "/") path)) s.storage;
  },
)

-- The files in the storage are deleted, and then the document, as `gather` starts them.
unfoldable pub db_delete : Doc → Exec Configuration Doc
db_delete asset = do
  asset_id ← lift (field_of asset "asset_id")
  kind ← lift (field_of asset "kind")
  delete_group (kind <> ("/" <> asset_id)) public_owner
  on_assets (delete_document asset public_owner)
  pure asset

abbrev pub access_policy_record_id : String → String → String
access_policy_record_id asset_id group_id = asset_id <> ("_" <> group_id)

unfoldable pub get_asset_implementation : String → Exec Configuration AssetResponse
get_asset_implementation asset_id = do doc ← db_get asset_id; lift (format_asset doc)

-- The flags `read` and `write`.
unfoldable pub get_raw_record_permissions :
    Base64 → (List String → List String) → User → String → Bool × Bool
unfolding get_user_group_ids
get_raw_record_permissions c distinct user group_id =
    let allowed = member group_id (get_user_group_ids c distinct user) in (allowed, allowed)

unfoldable pub get_file_path : String → String → Option String → String
get_file_path asset_id kind none = kind <> ("/" <> (asset_id <> "/files/"))
get_file_path asset_id kind (some file_path) =
    if file_path == ""
    then kind <> ("/" <> (asset_id <> "/files/"))
    else kind <> ("/" <> (asset_id <> ("/files/" <> file_path)))
