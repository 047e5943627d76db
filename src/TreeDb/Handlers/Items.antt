-- ===== src/TreeDb/Handlers/Items.antt =====
-- src/youwol/backends/tree_db/routers/items.py
use py_youwol.Prelude.{ℕ, String, Bool, true, false, some, List, [], ◌∷◌}
use py_youwol.Prelude.Dict.{put}
use py_youwol.Prelude.Exec.{Exec, pure, lift, ◌>>=◌, ◌>>◌}
use py_youwol.DocDb.Models.{Doc, field_of}
use py_youwol.TreeDb.Models.{
  Codec, DocDbs, ItemResponse, ItemBody, BorrowBody, PathResponse, ChildrenResponse,
}
use py_youwol.TreeDb.Docs.{doc_to_item, deleted_item, convert_all}
use py_youwol.TreeDb.Access.{
  items, deleted, db_get, db_post, db_query, db_delete, get_parent, get_folders_rec, or_fresh,
}
use py_youwol.TreeDb.Listing.{list_deleted}

module _ (c : Codec) where
  -- `_create_item`, the body of `create_item`
  unfoldable pub create_item : String → ItemBody → String → Exec DocDbs ItemResponse
  create_item folder_id item fresh = do
    parent ← get_parent folder_id
    group_id ← lift (field_of parent "group_id")
    drive_id ← lift (field_of parent "drive_id")
    let doc : Doc =
        ("item_id", or_fresh item.item_id fresh)
        ∷ ("folder_id", folder_id)
        ∷ ("related_id", item.asset_id)
        ∷ ("name", item.name)
        ∷ ("type", item.kind)
        ∷ ("group_id", group_id)
        ∷ ("drive_id", drive_id)
        ∷ ("metadata", c.dump_borrowed item.borrowed)
        ∷ []
    db_post items doc
    lift (doc_to_item c doc [])

  unfoldable pub update_item : String → String → Exec DocDbs ItemResponse
  update_item item_id name = do
    old ← db_get items "item_id" item_id
    let doc = put "name" name old
    db_post items doc
    lift (doc_to_item c doc [])

  -- `_get_item`, the body of `get_item`
  unfoldable pub get_item : String → Exec DocDbs ItemResponse
  get_item item_id = do doc ← db_get items "item_id" item_id; lift (doc_to_item c doc [])

  unfoldable pub get_items_by_asset_id : String → Exec DocDbs (List ItemResponse)
  get_items_by_asset_id asset_id = do
    docs ← db_query items "related_id" asset_id 100
    lift (convert_all (λ d. doc_to_item c d []) docs)

  unfoldable pub get_path : ℕ → String → Exec DocDbs PathResponse
  get_path fuel item_id = do
    item ← get_item item_id
    (chain, drive) ← get_folders_rec fuel item.folder_id item.drive_id
    pure (record { item = some item; folders = chain; drive = drive })

  unfoldable pub borrow : String → BorrowBody → String → Exec DocDbs ItemResponse
  borrow item_id body fresh = do
    item ← get_item item_id
    metadata ← lift (c.mark_borrowed item.metadata)
    create_item body.destination_folder_id
        (record {
          name = item.name;
          kind = item.kind;
          item_id = some (or_fresh body.target_id fresh);
          borrowed = true;
          asset_id = item.asset_id;
        })
        fresh

  unfoldable pub list_items_deleted : String → Exec DocDbs ChildrenResponse
  list_items_deleted drive_id = list_deleted c drive_id

abbrev pub to_trash : Bool → Doc → Exec DocDbs (Unit {0})
to_trash true doc = pure tt
to_trash false doc = do trashed ← lift (deleted_item doc); db_post deleted trashed

unfoldable pub queue_delete_item : String → Bool → Exec DocDbs (Unit {0})
queue_delete_item item_id erase = do
  doc ← db_get items "item_id" item_id
  to_trash erase doc
  id ← lift (field_of doc "item_id")
  group_id ← lift (field_of doc "group_id")
  db_delete items (("item_id", id) ∷ ("group_id", group_id) ∷ [])
