-- ===== src/TreeDb/Handlers/Drives.antt =====
-- src/youwol/backends/tree_db/routers/drives.py
use py_youwol.Prelude.{ℕ, ◌+◌, String, [], ◌++◌, map, ltb, if◌then◌else◌, length}
use py_youwol.Prelude.Dict.{put}
use py_youwol.Prelude.Exec.{http, Exec, pure, raise, lift, ◌>>=◌, ◌>>◌, gather}
use py_youwol.DocDb.Models.{field_of}
use py_youwol.TreeDb.Models.{
  Codec, DocDbs, ItemResponse, FolderResponse, DriveResponse, PurgeResponse,
}
use py_youwol.TreeDb.Docs.{item_to_doc, folder_to_doc}
use py_youwol.TreeDb.Access.{items, folders, drives, deleted, db_get, db_post, db_query, db_delete}
use py_youwol.TreeDb.Listing.{entities_children, list_deleted}
use py_youwol.TreeDb.Handlers.Folders.{purge_folder, join}

-- The body of `get_drive_details` is `get_drive`.
unfoldable pub update_drive : String → String → Exec DocDbs DriveResponse
update_drive drive_id name = do
  old ← db_get drives "drive_id" drive_id
  let doc = put "name" name old
  db_post drives doc
  metadata ← lift (field_of doc "metadata")
  group_id ← lift (field_of doc "group_id")
  pure (record { drive_id = drive_id; name = name; metadata = metadata; group_id = group_id })

-- `db_delete(docdb=items_db, doc=item_to_doc(f))` and its like for folders
abbrev pub delete_item : ItemResponse → Exec DocDbs (Unit {0})
delete_item i = db_delete items (item_to_doc i)

abbrev pub delete_folder : FolderResponse → Exec DocDbs (Unit {0})
delete_folder f = db_delete folders (folder_to_doc f)

module _ (c : Codec) where
  unfoldable pub delete_drive : String → Exec DocDbs (Unit {0})
  delete_drive drive_id = do
    entities ← entities_children c drive_id
    trash ← list_deleted c drive_id
    let count =
        length entities.folders + length entities.items + length trash.items + length trash.folders
    if ltb 0 count
        then raise (http 428)
        else do doc ← db_get drives "drive_id" drive_id; db_delete drives doc

  unfoldable pub purge_drive : ℕ → String → Exec DocDbs PurgeResponse
  purge_drive fuel drive_id = do
    trash ← list_deleted c drive_id
    let skip_items = map (λ i. i.item_id) trash.items
    children ← gather (map (λ f. purge_folder c fuel [] skip_items f.folder_id) trash.folders)
    let (rec_items, rec_folders, rec_found) = join children
    gather (
        map delete_item rec_items
        ++ (map delete_folder rec_folders
            ++ (map delete_item trash.items ++ map delete_folder trash.folders)))
    docs ← db_query deleted "drive_id" drive_id 100
    gather (map (db_delete deleted) docs)
    pure (record {
      folders_count = length trash.folders + length rec_folders;
      items_count = length trash.items + length rec_items;
      items = rec_found ++ trash.items;
    })
