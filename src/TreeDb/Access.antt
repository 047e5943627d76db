-- ===== src/TreeDb/Access.antt =====
-- src/youwol/backends/tree_db/utils.py: the helpers that read and write the four tables.
use py_youwol.Prelude.{
  ℕ, zero, suc, String, Option, none, some, List, [], ◌∷◌, ◌++◌, ◌==◌, if◌then◌else◌, eqb,
}
use py_youwol.Prelude.Exec.{
  http, circular_dependencies, out_of_fuel, Result, ok, err, then_ok, Exec, pure, raise, lift,
  ◌>>=◌, ◌>>◌,
}
use py_youwol.DocDb.Models.{Doc, field_of}
use py_youwol.DocDb.Parse.{parse}
use py_youwol.DocDb.Parse.Laws.{query_text}
use py_youwol.DocDb.Local.{LocalDocDb, query, get_document}
use py_youwol.DocDb.Write.{update_document, delete_document}
use py_youwol.TreeDb.Models.{DocDbs, FolderResponse, DriveResponse, FolderBody, DriveBody}
use py_youwol.TreeDb.Docs.{doc_to_folder, doc_to_drive_response}

pub data Table : Type 0 where
  items folders drives deleted : Table

abbrev pub table_of : Table → DocDbs → LocalDocDb
table_of items dbs = dbs.items_db
table_of folders dbs = dbs.folders_db
table_of drives dbs = dbs.drives_db
table_of deleted dbs = dbs.deleted_db

abbrev pub with_table : Table → LocalDocDb → DocDbs → DocDbs
with_table items db dbs = record dbs { items_db = db }
with_table folders db dbs = record dbs { folders_db = db }
with_table drives db dbs = record dbs { drives_db = db }
with_table deleted db dbs = record dbs { deleted_db = db }

-- A method of one table that reads, and one that writes.
unfoldable pub look : {A : Type 0} → Table → (LocalDocDb → Result A) → Exec DocDbs A
look t f dbs = (f (table_of t dbs), dbs)

unfoldable pub on : {A : Type 0} → Table → Exec LocalDocDb A → Exec DocDbs A
on t m dbs = ((m (table_of t dbs)).0, with_table t (m (table_of t dbs)).1 dbs)

-- `Constants.public_owner`
abbrev pub public_owner : String
public_owner = "/youwol-users"

-- `Constants.max_children_count`
abbrev pub max_children_count : ℕ
max_children_count = 1000

unfoldable pub db_get : Table → String → String → Exec DocDbs Doc
unfolding look
db_get t pk id = look t (get_document ((pk, id) ∷ []) [] public_owner)

-- The attributes of the trace read `doc["group_id"]` first.
unfoldable pub db_post : Table → Doc → Exec DocDbs (Unit {0})
unfolding ◌>>=◌ on
db_post t doc = lift (field_of doc "group_id") >> on t (update_document doc public_owner)

unfoldable pub db_query : Table → String → String → ℕ → Exec DocDbs (List Doc)
unfolding look
db_query t key value max_count =
    look t
      (λ db. then_ok (parse (query_text key value max_count)) (λ body. query body public_owner db))

unfoldable pub db_delete : Table → Doc → Exec DocDbs (Unit {0})
unfolding on
db_delete t doc = on t (delete_document doc public_owner)

abbrev pub first_or_404 : List Doc → Exec DocDbs Doc
first_or_404 [] = raise (http 404)
first_or_404 (d ∷ _) = pure d

unfoldable pub get_parent : String → Exec DocDbs Doc
get_parent parent_id = do
  parent_folder ← db_query folders "folder_id" parent_id 1
  parent_drive ← db_query drives "drive_id" parent_id 1
  first_or_404 (parent_folder ++ parent_drive)

unfoldable pub get_folder : String → Exec DocDbs FolderResponse
get_folder folder_id = do doc ← db_get folders "folder_id" folder_id; lift (doc_to_folder doc [])

unfoldable pub get_drive : String → Exec DocDbs DriveResponse
get_drive drive_id = do
  doc ← db_get drives "drive_id" drive_id
  name ← lift (field_of doc "name")
  metadata ← lift (field_of doc "metadata")
  group_id ← lift (field_of doc "group_id")
  pure (record { drive_id = drive_id; name = name; metadata = metadata; group_id = group_id })

-- The loop of `get_folders_rec`, from its first folder and the others.
unfoldable pub climb : ℕ → FolderResponse → List FolderResponse → Exec DocDbs (List FolderResponse)
climb zero first others = raise out_of_fuel
climb (suc fuel) first others =
    let next = get_folder first.parent_folder_id >>= λ parent. climb fuel parent (first ∷ others) in
    if first.parent_folder_id == first.drive_id then pure (first ∷ others) else next

unfoldable pub get_folders_rec :
    ℕ → String → String → Exec DocDbs (List FolderResponse × DriveResponse)
get_folders_rec fuel folder_id drive_id = do
  drive ← get_drive drive_id
  folder ← get_folder folder_id
  chain ← climb fuel folder []
  pure (chain, drive)

-- `given or str(uuid.uuid4())`, where `fresh` is the identifier that `uuid4` draws.
abbrev pub or_fresh : Option String → String → String
or_fresh none fresh = fresh
or_fresh (some id) fresh = if id == "" then fresh else id

unfoldable pub create_folder : String → FolderBody → String → Exec DocDbs FolderResponse
create_folder parent_folder_id folder fresh = do
  parent ← get_parent parent_folder_id
  group_id ← lift (field_of parent "group_id")
  drive_id ← lift (field_of parent "drive_id")
  let doc : Doc =
      ("folder_id", or_fresh folder.folder_id fresh)
      ∷ ("name", folder.name)
      ∷ ("parent_folder_id", parent_folder_id)
      ∷ ("group_id", group_id)
      ∷ ("type", folder.kind)
      ∷ ("metadata", folder.metadata)
      ∷ ("drive_id", drive_id)
      ∷ []
  db_post folders doc
  lift (doc_to_folder doc [])

unfoldable pub create_drive : String → DriveBody → String → Exec DocDbs DriveResponse
create_drive group_id drive fresh = do
  let doc : Doc =
      ("name", drive.name)
      ∷ ("drive_id", or_fresh drive.drive_id fresh)
      ∷ ("group_id", group_id)
      ∷ ("metadata", drive.metadata)
      ∷ []
  db_post drives doc
  lift (doc_to_drive_response doc)

-- `CircularDependencies` is an `HTTPException` with the status 404.
-- `try: m except HTTPException as e: if e.status_code != 404: raise e; handler`
abbrev pub on_404 : {A : Type 0} → Result A → Exec DocDbs A → Exec DocDbs A
on_404 (ok a) handler = pure a
on_404 (err (http n)) handler = if eqb n 404 then handler else raise (http n)
on_404 (err (circular_dependencies _)) handler = handler
on_404 (err e) handler = raise e

unfoldable pub catch_404 : {A : Type 0} → Exec DocDbs A → Exec DocDbs A → Exec DocDbs A
catch_404 m handler dbs = on_404 (m dbs).0 handler (m dbs).1

unfoldable pub ensure_folder : String → String → String → Exec DocDbs FolderResponse
ensure_folder name folder_id parent_folder_id = catch_404 (get_folder folder_id) (
    create_folder parent_folder_id
      (record { name = name; kind = ""; metadata = ""; folder_id = some folder_id }) "")
