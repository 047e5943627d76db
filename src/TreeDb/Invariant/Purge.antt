-- ===== src/TreeDb/Invariant/Purge.antt =====
-- `purge_drive` of src/youwol/backends/tree_db/routers/drives.py keeps the tables.
use py_youwol.Prelude.{String, refl, List, [], ◌++◌, ℕ, All, map}
use py_youwol.Prelude.Exec.Keeps.{Keeps, Keeps-pure, Keeps-bind, Keeps-bind_with, Keeps-gather}
use py_youwol.DocDb.Models.{Doc}
use py_youwol.TreeDb.Models.{Codec, ItemResponse, FolderResponse}
use py_youwol.TreeDb.Docs.{item_to_doc, folder_to_doc}
use py_youwol.TreeDb.Access.{items, folders, deleted, db_delete}
use py_youwol.TreeDb.Handlers.Folders.{join}
use py_youwol.TreeDb.Handlers.Drives.{delete_item, delete_folder, purge_drive}
use py_youwol.TreeDb.Invariant.Tables.{IsDoc, IsTree, key_of_doc}
use py_youwol.TreeDb.Invariant.Rules.{db_query-Keeps, db_delete-Keeps, db_query-IsDoc}
use py_youwol.TreeDb.Invariant.Helpers.{list_deleted-Keeps}
use py_youwol.TreeDb.Invariant.Handlers.{All-map, All-map_with, All-append, purge_folder-Keeps}

delete_item-Keeps : (i : ItemResponse) → Keeps IsTree (delete_item i)
unfolding item_to_doc
delete_item-Keeps i = db_delete-Keeps items i.item_id _ refl

delete_folder-Keeps : (f : FolderResponse) → Keeps IsTree (delete_folder f)
unfolding folder_to_doc
delete_folder-Keeps f = db_delete-Keeps folders f.folder_id _ refl

-- The deletions of all the entities found.
deletions-keep :
    (is js : List ItemResponse) (fs gs : List FolderResponse)
    → All (Keeps IsTree) (
        map delete_item is
        ++ (map delete_folder fs ++ (map delete_item js ++ map delete_folder gs)))
deletions-keep is js fs gs =
    let item =
      λ (xs : List ItemResponse). All-map (Keeps IsTree) delete_item xs delete_item-Keeps in
    let folder =
      λ (xs : List FolderResponse). All-map (Keeps IsTree) delete_folder xs delete_folder-Keeps in
    All-append (Keeps IsTree) _ _ (item is) (
      All-append (Keeps IsTree) _ _ (folder fs)
        (All-append (Keeps IsTree) _ _ (item js) (folder gs)))

trash-keep :
    (docs : List Doc) → All (IsDoc deleted) docs → All (Keeps IsTree) (map (db_delete deleted) docs)
trash-keep docs h =
    All-map_with (IsDoc deleted) (Keeps IsTree) (db_delete deleted) docs
      (λ d k. db_delete-Keeps deleted (key_of_doc deleted d k).0 d (key_of_doc deleted d k).1) h

module _ (c : Codec) where
  pub purge_drive-Keeps :
      (fuel : ℕ) (drive_id : String) → Keeps IsTree (purge_drive c fuel drive_id)
  unfolding purge_drive
  purge_drive-Keeps fuel drive_id = Keeps-bind _ _ (list_deleted-Keeps c drive_id) λ trash.
      Keeps-bind _ _
        (Keeps-gather _
          (All-map (Keeps IsTree) _ _ (λ f. purge_folder-Keeps c fuel [] _ f.folder_id)))
        λ children.
          Keeps-bind _ _
            (Keeps-gather _
              (deletions-keep (join children).0 trash.items (join children).1 trash.folders))
            λ _.
              Keeps-bind_with {Q = All (IsDoc deleted)} _ _
                (db_query-Keeps deleted "drive_id" drive_id 100)
                (db_query-IsDoc deleted "drive_id" drive_id 100)
                λ docs h. Keeps-bind _ _ (Keeps-gather _ (trash-keep docs h)) λ _. Keeps-pure _
