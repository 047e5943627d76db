-- ===== src/TreeDb/Invariant/Serve.antt =====
-- The service as a whole: requests to the endpoints of src/youwol/backends/tree_db/routers, one
-- after the other.
use py_youwol.Prelude.{ℕ, String, Bool, List, [], ◌∷◌}
use py_youwol.Prelude.Exec.{Exec}
use py_youwol.TreeDb.Models.{
  Codec, DocDbs, ItemBody, BorrowBody, FolderBody, DriveBody, MoveItemBody,
}
use py_youwol.TreeDb.Access.{get_folder, get_drive, create_folder, create_drive}
use py_youwol.TreeDb.DefaultDrive.{get_default_drive}
use py_youwol.TreeDb.Listing.{entities_children, list_deleted}
use py_youwol.TreeDb.Handlers.Items.{
  create_item, update_item, get_item, get_items_by_asset_id, get_path, borrow, queue_delete_item,
}
use py_youwol.TreeDb.Handlers.Folders.{update_folder, get_path_folder, queue_delete_folder}
use py_youwol.TreeDb.Handlers.Drives.{update_drive, delete_drive, purge_drive}
use py_youwol.TreeDb.Handlers.Entities.{get_entity, move}
use py_youwol.TreeDb.Invariant.Tables.{IsTree}
use py_youwol.TreeDb.Invariant.Helpers.{
  get_folder-Keeps, get_drive-Keeps, create_folder-Keeps, create_drive-Keeps,
  get_default_drive-Keeps, entities_children-Keeps, list_deleted-Keeps,
}
use py_youwol.TreeDb.Invariant.Handlers.{
  create_item-Keeps, update_item-Keeps, get_item-Keeps, get_items_by_asset_id-Keeps, get_path-Keeps,
  borrow-Keeps, queue_delete_item-Keeps, update_folder-Keeps, get_path_folder-Keeps,
  queue_delete_folder-Keeps, update_drive-Keeps, delete_drive-Keeps,
}
use py_youwol.TreeDb.Invariant.Move.{get_entity-Keeps, move-Keeps}
use py_youwol.TreeDb.Invariant.Purge.{purge_drive-Keeps}

-- A request to an endpoint; the last argument of a request that draws a uuid is the uuid.
pub data Request : Type 0 where
  post_item : String → ItemBody → String → Request
  post_item_name : String → String → Request
  read_item : String → Request
  read_items_of_asset : String → Request
  read_item_path : String → Request
  post_borrow : String → BorrowBody → String → Request
  trash_item : String → Bool → Request
  post_folder : String → FolderBody → String → Request
  post_folder_name : String → String → Request
  read_folder : String → Request
  read_folder_path : String → Request
  trash_folder : String → Request
  put_drive : String → DriveBody → String → Request
  post_drive_name : String → String → Request
  read_drive : String → Request
  read_default_drive : String → Request
  remove_drive : String → Request
  purge : String → Request
  read_entity : String → Bool → Bool → Bool → Request
  read_children : String → Request
  read_deleted : String → Request
  post_move : MoveItemBody → Request

abbrev after : {A : Type 0} → Exec DocDbs A → DocDbs → DocDbs
after m dbs = (m dbs).1

module _ (c : Codec) (fuel : ℕ) where
  -- The tables after a request, whether the endpoint returned or raised.
  unfoldable pub handle : Request → DocDbs → DocDbs
  handle (post_item id body fresh) = after (create_item c id body fresh)
  handle (post_item_name id name) = after (update_item c id name)
  handle (read_item id) = after (get_item c id)
  handle (read_items_of_asset id) = after (get_items_by_asset_id c id)
  handle (read_item_path id) = after (get_path c fuel id)
  handle (post_borrow id body fresh) = after (borrow c id body fresh)
  handle (trash_item id erase) = after (queue_delete_item id erase)
  handle (post_folder id body fresh) = after (create_folder id body fresh)
  handle (post_folder_name id name) = after (update_folder id name)
  handle (read_folder id) = after (get_folder id)
  handle (read_folder_path id) = after (get_path_folder fuel id)
  handle (trash_folder id) = after (queue_delete_folder id)
  handle (put_drive group_id body fresh) = after (create_drive group_id body fresh)
  handle (post_drive_name id name) = after (update_drive id name)
  handle (read_drive id) = after (get_drive id)
  handle (read_default_drive group_id) = after (get_default_drive group_id)
  handle (remove_drive id) = after (delete_drive c id)
  handle (purge id) = after (purge_drive c fuel id)
  handle (read_entity id d f i) = after (get_entity c id d f i)
  handle (read_children id) = after (entities_children c id)
  handle (read_deleted id) = after (list_deleted c id)
  handle (post_move body) = after (move c fuel body)

  unfoldable pub serve : List Request → DocDbs → DocDbs
  serve [] dbs = dbs
  serve (r ∷ rs) dbs = serve rs (handle r dbs)

  handle-IsTree : (r : Request) (dbs : DocDbs) → IsTree dbs → IsTree (handle r dbs)
  unfolding handle
  handle-IsTree (post_item id body fresh) = (create_item-Keeps c id body fresh).at
  handle-IsTree (post_item_name id name) = (update_item-Keeps c id name).at
  handle-IsTree (read_item id) = (get_item-Keeps c id).at
  handle-IsTree (read_items_of_asset id) = (get_items_by_asset_id-Keeps c id).at
  handle-IsTree (read_item_path id) = (get_path-Keeps c fuel id).at
  handle-IsTree (post_borrow id body fresh) = (borrow-Keeps c id body fresh).at
  handle-IsTree (trash_item id erase) = (queue_delete_item-Keeps id erase).at
  handle-IsTree (post_folder id body fresh) = (create_folder-Keeps id body fresh).at
  handle-IsTree (post_folder_name id name) = (update_folder-Keeps id name).at
  handle-IsTree (read_folder id) = (get_folder-Keeps id).at
  handle-IsTree (read_folder_path id) = (get_path_folder-Keeps fuel id).at
  handle-IsTree (trash_folder id) = (queue_delete_folder-Keeps id).at
  handle-IsTree (put_drive group_id body fresh) = (create_drive-Keeps group_id body fresh).at
  handle-IsTree (post_drive_name id name) = (update_drive-Keeps id name).at
  handle-IsTree (read_drive id) = (get_drive-Keeps id).at
  handle-IsTree (read_default_drive group_id) = (get_default_drive-Keeps group_id).at
  handle-IsTree (remove_drive id) = (delete_drive-Keeps c id).at
  handle-IsTree (purge id) = (purge_drive-Keeps c fuel id).at
  handle-IsTree (read_entity id d f i) = (get_entity-Keeps c id d f i).at
  handle-IsTree (read_children id) = (entities_children-Keeps c id).at
  handle-IsTree (read_deleted id) = (list_deleted-Keeps c id).at
  handle-IsTree (post_move body) = (move-Keeps c fuel body).at

  -- Whatever requests come, in whatever order, and whether they return or raise: if the four tables
  -- are well-formed before them, they are well-formed after them.
  pub serve-IsTree : (rs : List Request) (dbs : DocDbs) → IsTree dbs → IsTree (serve rs dbs)
  unfolding serve
  serve-IsTree [] dbs h = h
  serve-IsTree (r ∷ rs) dbs h = serve-IsTree rs (handle r dbs) (handle-IsTree r dbs h)
