-- ===== src/TreeDb/Handlers/Entities.antt =====
-- src/youwol/backends/tree_db/routers/entities.py
use py_youwol.Prelude.{
  ℕ, zero, suc, ◌+◌, String, Bool, true, false, not, List, [], ◌∷◌, ◌++◌, map, ◌==◌, if◌then◌else◌,
  select,
}
use mathlib.Core.List.{flatten}
use py_youwol.Prelude.Dict.{put}
use py_youwol.Prelude.Exec.{
  http, type_error, out_of_fuel, Result, ok, err, then_ok, Exec, pure, raise, lift, ◌>>=◌, ◌>>◌,
  gather,
}
use py_youwol.DocDb.Models.{Doc, field_of}
use py_youwol.DocDb.Local.{has_key}
use py_youwol.TreeDb.Models.{
  Codec, DocDbs, ItemResponse, FolderResponse, EntityResponse, item_entity, folder_entity,
  drive_entity, MoveItemBody, MoveResponse,
}
use py_youwol.TreeDb.Docs.{doc_to_item, doc_to_folder, doc_to_drive_response}
use py_youwol.TreeDb.Access.{items, folders, drives, Table, db_post, db_query}
use py_youwol.TreeDb.Listing.{entities_children}

abbrev pub query_if : Bool → Table → String → String → Exec DocDbs (List Doc)
query_if true t key id = db_query t key id 1
query_if false t key id = pure []

abbrev total : List ℕ → ℕ
total [] = 0
total (n ∷ ns) = n + total ns

-- The identifier, the group and the drive of a destination.
pub record Destination : Type 0 where
  pub id : String
  pub group_id : String
  pub drive_id : String

abbrev pub destination_of : EntityResponse → Destination
destination_of (folder_entity f) = record {
  id = f.folder_id;
  group_id = f.group_id;
  drive_id = f.drive_id;
}
destination_of (drive_entity d) = record {
  id = d.drive_id;
  group_id = d.group_id;
  drive_id = d.drive_id;
}
destination_of (item_entity i) = record {
  id = i.drive_id;
  group_id = i.group_id;
  drive_id = i.drive_id;
}

-- `items + folders`, of lists or of the exceptions that `gather` returned in their place
abbrev pub sources : Result (List Doc) → Result (List Doc) → Result (List Doc)
sources (ok xs) (ok ys) = ok (xs ++ ys)
sources (ok xs) (err e) = err type_error
sources (err e) ys = err type_error

-- `target["drive_id"] == destination.driveId and target["group_id"] == destination.groupId`
abbrev pub same_place : Destination → Doc → Result Bool
same_place to target = then_ok (field_of target "drive_id") (λ v.
    if v == to.drive_id
    then then_ok (field_of target "group_id") (λ g. ok (g == to.group_id))
    else ok false)

-- The target in its new place, its column `parent` set to the destination.
abbrev pub moved : String → Destination → Doc → Doc
moved parent to target =
    put "drive_id" to.drive_id (put "group_id" to.group_id (put parent to.id target))

module _ (c : Codec) where
  abbrev pub entity_of : Doc → Result EntityResponse
  entity_of d =
      if has_key "item_id" d
      then then_ok (doc_to_item c d []) (λ i. ok (item_entity i))
      else if has_key "parent_folder_id" d
      then then_ok (doc_to_folder d []) (λ f. ok (folder_entity f))
      else then_ok (doc_to_drive_response d) (λ r. ok (drive_entity r))

  abbrev pub entity_or_404 : List Doc → Exec DocDbs EntityResponse
  entity_or_404 [] = raise (http 404)
  entity_or_404 (d ∷ _) = lift (entity_of d)

  -- `_get_entity`, the body of `get_entity`
  unfoldable pub get_entity : String → Bool → Bool → Bool → Exec DocDbs EntityResponse
  get_entity entity_id include_drives include_folders include_items = do
    item_docs ← query_if include_items items "item_id" entity_id
    folder_docs ← query_if include_folders folders "folder_id" entity_id
    drive_docs ← query_if include_drives drives "drive_id" entity_id
    entity_or_404 (item_docs ++ (folder_docs ++ drive_docs))

  -- The items and folders of a moved folder that move with it; borrowed items do not.
  abbrev bodies_of : String → List ItemResponse → List FolderResponse → List MoveItemBody
  bodies_of folder_id child_items child_folders =
      map (λ i. record { target_id = i.item_id; destination_folder_id = folder_id })
        (select (λ i. not i.borrowed) child_items)
      ++ map (λ f. record { target_id = f.folder_id; destination_folder_id = folder_id })
          child_folders

  -- The branch of `move` for a folder; `recur` is the call of `move` for its content.
  unfoldable pub move_folder :
      (MoveItemBody → Exec DocDbs MoveResponse) → Destination → Doc → Exec DocDbs MoveResponse
  move_folder recur to target = do
    db_post folders (moved "parent_folder_id" to target)
    stays ← lift (same_place to target)
    if stays then pure (record { folders_count = 1; items = [] }) else do
      folder_id ← lift (field_of target "folder_id")
      content ← entities_children c folder_id
      results ← gather (map recur (bodies_of folder_id content.items content.folders))
      pure (record {
        folders_count = 1 + total (map (λ r. r.folders_count) results);
        items = flatten (map (λ r. r.items) results);
      })

  unfoldable pub move_item : Destination → Doc → Exec DocDbs MoveResponse
  move_item to target = do
    let doc = moved "folder_id" to target
    db_post items doc
    item ← lift (doc_to_item c doc [])
    pure (record { folders_count = 0; items = item ∷ [] })

  abbrev pub move_target :
      (MoveItemBody → Exec DocDbs MoveResponse) → Destination → Doc → Exec DocDbs MoveResponse
  move_target recur to target =
      if has_key "parent_folder_id" target then move_folder recur to target else move_item to target

  -- A missing destination is a 404 of its own; any other exception is raised as it is.
  abbrev pub move_found :
      (MoveItemBody → Exec DocDbs MoveResponse)
      → Result EntityResponse
      → List Doc
      → Exec DocDbs MoveResponse
  move_found recur destination [] = raise (http 404)
  move_found recur (err e) (target ∷ _) = raise e
  move_found recur (ok destination) (target ∷ _) =
      move_target recur (destination_of destination) target

  unfoldable pub move : ℕ → MoveItemBody → Exec DocDbs MoveResponse
  unfolding move_folder move_item get_entity
  move zero body dbs = (err out_of_fuel, dbs)
  move (suc fuel) body dbs =
      let (item_docs, s) = db_query items "item_id" body.target_id 1 dbs in
      let (folder_docs, t) = db_query folders "folder_id" body.target_id 1 s in
      let (destination, u) = get_entity body.destination_folder_id true true false t in
      (lift (sources item_docs folder_docs) >>= move_found (move fuel) destination) u
