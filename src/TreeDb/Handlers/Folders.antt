-- ===== src/TreeDb/Handlers/Folders.antt =====
-- src/youwol/backends/tree_db/routers/folders.py
use py_youwol.Prelude.{ℕ, zero, suc, String, not, none, List, [], ◌∷◌, ◌++◌, map, select}
use py_youwol.Prelude.Dict.{put, member}
use py_youwol.Prelude.Exec.{out_of_fuel, Exec, pure, raise, lift, ◌>>=◌, ◌>>◌, gather}
use py_youwol.DocDb.Models.{field_of}
use py_youwol.TreeDb.Models.{Codec, DocDbs, ItemResponse, FolderResponse, PathResponse}
use py_youwol.TreeDb.Docs.{doc_to_folder, deleted_folder}
use py_youwol.TreeDb.Access.{
  folders, deleted, db_get, db_post, db_delete, get_folder, get_folders_rec,
}
use py_youwol.TreeDb.Listing.{entities_children}

-- The body of `create_child_folder` is `create_folder`, that of `get_folder_details` is `get_folder`.
unfoldable pub update_folder : String → String → Exec DocDbs FolderResponse
update_folder folder_id name = do
  old ← db_get folders "folder_id" folder_id
  let doc = put "name" name old
  db_post folders doc
  lift (doc_to_folder doc [])

unfoldable pub get_path_folder : ℕ → String → Exec DocDbs PathResponse
get_path_folder fuel folder_id = do
  folder ← get_folder folder_id
  (chain, drive) ← get_folders_rec fuel folder_id folder.drive_id
  pure (record { item = none; folders = chain; drive = drive })

unfoldable pub queue_delete_folder : String → Exec DocDbs (Unit {0})
queue_delete_folder folder_id = do
  old ← db_get folders "folder_id" folder_id
  doc ← lift (deleted_folder old)
  db_post deleted doc
  id ← lift (field_of doc "deleted_id")
  group_id ← lift (field_of doc "group_id")
  db_delete folders (("folder_id", id) ∷ ("group_id", group_id) ∷ [])

-- What `purge_folder` returns: the deletions of items and of folders that are still to be awaited,
-- by the entities that they delete, and the items found.
abbrev pub Purge : Type 0
Purge = List ItemResponse × List FolderResponse × List ItemResponse

abbrev pub join : List Purge → Purge
join [] = ([], [], [])
join ((a, b, c) ∷ ps) = let (as', bs, cs) = join ps in (a ++ as', b ++ bs, c ++ cs)

module _ (c : Codec) where
  -- The folders to delete are tested against `skip_items`, as in the source.
  unfoldable pub purge_folder : ℕ → List String → List String → String → Exec DocDbs Purge
  purge_folder zero skip_folders skip_items folder_id = raise out_of_fuel
  purge_folder (suc fuel) skip_folders skip_items folder_id = do
    content ← entities_children c folder_id
    let delete_items = select (λ i. not (member i.item_id skip_items)) content.items
    let delete_folders = select (λ f. not (member f.folder_id skip_items)) content.folders
    let skipped = map (λ i. i.item_id) content.items ++ skip_items
    let visited = select (λ f. not (member f.folder_id skip_folders)) content.folders
    deletions ← gather (map (λ f. purge_folder fuel skip_folders skipped f.folder_id) visited)
    let (rec_items, rec_folders, rec_found) = join deletions
    pure (delete_items ++ rec_items, delete_folders ++ rec_folders, content.items ++ rec_found)
