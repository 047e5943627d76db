-- ===== src/TreeDb/Invariant/Handlers.antt =====
-- The endpoints of src/youwol/backends/tree_db/routers keep the tables.
use py_youwol.Prelude.{
  String, ◌≡◌, refl, ◌∙◌, Bool, true, false, List, [], ◌∷◌, ◌++◌, ◌==◌, ℕ, zero, suc, All, map,
}
use py_youwol.Prelude.Dict.{put, get-put}
use py_youwol.Prelude.Exec.{Gives, Gives-ok, Gives-bind, Exec, ◌>>=◌}
use py_youwol.Prelude.Exec.Keeps.{
  Keeps, Keeps-pure, Keeps-raise, Keeps-lift, Keeps-if, Keeps-bind, Keeps-bind_with,
  Keeps-bind-lift, Keeps-gather,
}
use py_youwol.DocDb.Models.{Doc}
use py_youwol.DocDb.Table.Store.{All-HasColumn-put}
use py_youwol.TreeDb.Models.{Codec, DocDbs, ItemBody, BorrowBody}
use py_youwol.TreeDb.Docs.{deleted_item, deleted_folder}
use py_youwol.TreeDb.Access.{Table, items, folders, drives, deleted, db_get}
use py_youwol.TreeDb.Handlers.Items.{
  create_item, update_item, get_item, get_items_by_asset_id, get_path, borrow, to_trash,
  queue_delete_item,
}
use py_youwol.TreeDb.Handlers.Folders.{
  update_folder, get_path_folder, queue_delete_folder, purge_folder,
}
use py_youwol.TreeDb.Handlers.Drives.{update_drive, delete_drive}
use py_youwol.TreeDb.Invariant.Tables.{pk_of, body_of, IsDoc, IsTree, key_of_doc}
use py_youwol.TreeDb.Invariant.Rules.{db_get-Keeps, db_post-Keeps, db_delete-Keeps, db_get-IsDoc}
use py_youwol.TreeDb.Invariant.Helpers.{
  block_rules, get_parent-Keeps, get_folder-Keeps, get_folders_rec-Keeps, entities_children-Keeps,
  list_deleted-Keeps,
}

-- A column that items may have.
abbrev pub IsFree : Table → String → Type 0
IsFree items k = (k == "parent_folder_id") ≡ false
IsFree _ k = Unit

pub put-IsDoc : (t : Table) (k v : String) (d : Doc) → IsFree t k → IsDoc t d → IsDoc t (put k v d)
put-IsDoc items k v d f h = (
  All-HasColumn-put d k v (body_of items).columns h.0,
  get-put "parent_folder_id" k v d ∙ rw f h.1,
)
put-IsDoc folders k v d f h = (All-HasColumn-put d k v (body_of folders).columns h.0, tt)
put-IsDoc drives k v d f h = (All-HasColumn-put d k v (body_of drives).columns h.0, tt)
put-IsDoc deleted k v d f h = (All-HasColumn-put d k v (body_of deleted).columns h.0, tt)

pub All-map :
    {A B : Type 0} (P : B → Type 0) (f : A → B) (xs : List A)
    → ((x : A) → P (f x))
    → All P (map f xs)
All-map P f [] h = tt
All-map P f (x ∷ xs) h = (h x, All-map P f xs h)

pub All-map_with :
    {A B : Type 0} (Q : A → Type 0) (P : B → Type 0) (f : A → B) (xs : List A)
    → ((x : A) → Q x → P (f x))
    → All Q xs
    → All P (map f xs)
All-map_with Q P f [] h q = tt
All-map_with Q P f (x ∷ xs) h q = (h x q.0, All-map_with Q P f xs h q.1)

pub All-append :
    {A : Type 0} (P : A → Type 0) (front back : List A)
    → All P front
    → All P back
    → All P (front ++ back)
All-append P [] back hf hb = hb
All-append P (a ∷ front) back hf hb = (hf.0, All-append P front back hf.1 hb)

-- A block that begins with a read by key may use that the document stands in the table.
get-bind-Keeps :
    {B : Type 0} (t : Table) (id : String) (f : Doc → Exec DocDbs B)
    → ((d : Doc) → IsDoc t d → Keeps IsTree (f d))
    → Keeps IsTree (db_get t (pk_of t) id >>= f)
get-bind-Keeps t id f k =
    Keeps-bind_with {Q = IsDoc t} _ f (db_get-Keeps t _ id)
      (λ s h d e. (db_get-IsDoc t id s h d e).0) k

module _ (c : Codec) where
  pub create_item-Keeps :
      (folder_id : String) (item : ItemBody) (fresh : String)
      → Keeps IsTree (create_item c folder_id item fresh)
  unfolding create_item
  create_item-Keeps folder_id item fresh = Keeps-bind _ _ (get_parent-Keeps folder_id) λ parent.
      Keeps-bind _ _ (Keeps-lift _) λ group_id. Keeps-bind _ _ (Keeps-lift _) λ drive_id.
        Keeps-bind _ _
          (db_post-Keeps items _ (
            (
              (_, refl),
              (
                (_, refl),
                ((_, refl), ((_, refl), ((_, refl), ((_, refl), ((_, refl), ((_, refl), tt)))))),
              ),
            ),
            refl,
          ))
          λ _. Keeps-lift _

  pub update_item-Keeps : (item_id name : String) → Keeps IsTree (update_item c item_id name)
  unfolding update_item
  update_item-Keeps item_id name = get-bind-Keeps items item_id _ λ old d.
      Keeps-bind _ _ (db_post-Keeps items _ (put-IsDoc items "name" name old refl d))
        λ _. Keeps-lift _

  pub get_item-Keeps : (item_id : String) → Keeps IsTree (get_item c item_id)
  unfolding get_item
  get_item-Keeps item_id = search block_rules

  pub get_items_by_asset_id-Keeps :
      (asset_id : String) → Keeps IsTree (get_items_by_asset_id c asset_id)
  unfolding get_items_by_asset_id
  get_items_by_asset_id-Keeps asset_id = search block_rules

  pub borrow-Keeps :
      (item_id : String) (body : BorrowBody) (fresh : String)
      → Keeps IsTree (borrow c item_id body fresh)
  unfolding borrow
  borrow-Keeps item_id body fresh =
      Keeps-bind _ _ (get_item-Keeps item_id)
        λ item. Keeps-bind _ _ (Keeps-lift _) λ metadata. create_item-Keeps _ _ fresh

  pub get_path-Keeps : (fuel : ℕ) (item_id : String) → Keeps IsTree (get_path c fuel item_id)
  unfolding get_path
  get_path-Keeps fuel item_id =
      Keeps-bind _ _ (get_item-Keeps item_id)
        λ item. Keeps-bind _ _ (get_folders_rec-Keeps fuel _ _) λ p. Keeps-pure _

deleted_item-IsDoc : (doc : Doc) → Gives (IsDoc deleted) (deleted_item doc)
unfolding deleted_item
deleted_item-IsDoc doc = Gives-bind _ _ λ _. Gives-bind _ _ λ _. Gives-bind _ _ λ _.
    Gives-bind _ _ λ _. Gives-bind _ _ λ _. Gives-bind _ _ λ _. Gives-bind _ _ λ _.
      Gives-bind _ _ λ _. Gives-ok _ (
        (
          (_, refl),
          (
            (_, refl),
            (
              (_, refl),
              ((_, refl), ((_, refl), ((_, refl), ((_, refl), ((_, refl), ((_, refl), tt)))))),
            ),
          ),
        ),
        tt,
      )

deleted_folder-IsDoc : (doc : Doc) → Gives (IsDoc deleted) (deleted_folder doc)
unfolding deleted_folder
deleted_folder-IsDoc doc = Gives-bind _ _ λ _. Gives-bind _ _ λ _. Gives-bind _ _ λ _.
    Gives-bind _ _ λ _. Gives-bind _ _ λ _. Gives-bind _ _ λ _. Gives-bind _ _ λ _. Gives-ok _ (
      (
        (_, refl),
        (
          (_, refl),
          (
            (_, refl),
            ((_, refl), ((_, refl), ((_, refl), ((_, refl), ((_, refl), ((_, refl), tt)))))),
          ),
        ),
      ),
      tt,
    )

to_trash-Keeps : (erase : Bool) (doc : Doc) → Keeps IsTree (to_trash erase doc)
unfolding queue_delete_item
to_trash-Keeps true doc = Keeps-pure tt
to_trash-Keeps false doc =
    Keeps-bind-lift (deleted_item doc) _
      λ trashed e. db_post-Keeps deleted trashed ((deleted_item-IsDoc doc).at trashed e)

pub queue_delete_item-Keeps :
    (item_id : String) (erase : Bool) → Keeps IsTree (queue_delete_item item_id erase)
unfolding queue_delete_item
queue_delete_item-Keeps item_id erase = Keeps-bind _ _ (db_get-Keeps items _ item_id) λ doc.
    Keeps-bind _ _ (to_trash-Keeps erase doc) λ _.
      Keeps-bind _ _ (Keeps-lift _)
        λ id. Keeps-bind _ _ (Keeps-lift _) λ group_id. db_delete-Keeps items id _ refl

pub update_folder-Keeps : (folder_id name : String) → Keeps IsTree (update_folder folder_id name)
unfolding update_folder
update_folder-Keeps folder_id name = get-bind-Keeps folders folder_id _ λ old d.
    Keeps-bind _ _ (db_post-Keeps folders _ (put-IsDoc folders "name" name old tt d))
      λ _. Keeps-lift _

pub get_path_folder-Keeps :
    (fuel : ℕ) (folder_id : String) → Keeps IsTree (get_path_folder fuel folder_id)
unfolding get_path_folder
get_path_folder-Keeps fuel folder_id =
    Keeps-bind _ _ (get_folder-Keeps folder_id)
      λ folder. Keeps-bind _ _ (get_folders_rec-Keeps fuel _ _) λ p. Keeps-pure _

pub queue_delete_folder-Keeps : (folder_id : String) → Keeps IsTree (queue_delete_folder folder_id)
unfolding queue_delete_folder
queue_delete_folder-Keeps folder_id = Keeps-bind _ _ (db_get-Keeps folders _ folder_id) λ old.
    Keeps-bind-lift (deleted_folder old) _ λ doc e.
      Keeps-bind _ _ (db_post-Keeps deleted doc ((deleted_folder-IsDoc old).at doc e)) λ _.
        Keeps-bind _ _ (Keeps-lift _)
          λ id. Keeps-bind _ _ (Keeps-lift _) λ group_id. db_delete-Keeps folders id _ refl

pub update_drive-Keeps : (drive_id name : String) → Keeps IsTree (update_drive drive_id name)
unfolding update_drive
update_drive-Keeps drive_id name = get-bind-Keeps drives drive_id _ λ old d.
    Keeps-bind _ _ (db_post-Keeps drives _ (put-IsDoc drives "name" name old tt d)) λ _.
      Keeps-bind _ _ (Keeps-lift _)
        λ metadata. Keeps-bind _ _ (Keeps-lift _) λ group_id. Keeps-pure _

module _ (c : Codec) where
  pub purge_folder-Keeps :
      (fuel : ℕ) (skip_folders skip_items : List String) (folder_id : String)
      → Keeps IsTree (purge_folder c fuel skip_folders skip_items folder_id)
  unfolding purge_folder
  purge_folder-Keeps zero skip_folders skip_items folder_id = Keeps-raise _
  purge_folder-Keeps (suc fuel) skip_folders skip_items folder_id =
      Keeps-bind _ _ (entities_children-Keeps c folder_id) λ content.
        Keeps-bind _ _
          (Keeps-gather _
            (All-map (Keeps IsTree) _ _ (λ f. purge_folder-Keeps fuel skip_folders _ f.folder_id)))
          λ deletions. Keeps-pure _

  pub delete_drive-Keeps : (drive_id : String) → Keeps IsTree (delete_drive c drive_id)
  unfolding delete_drive
  delete_drive-Keeps drive_id = Keeps-bind _ _ (entities_children-Keeps c drive_id) λ entities.
      Keeps-bind _ _ (list_deleted-Keeps c drive_id) λ trash. Keeps-if _ _ _ (Keeps-raise _) (
        get-bind-Keeps drives drive_id _ λ doc d.
          db_delete-Keeps drives (key_of_doc drives doc d).0 doc (key_of_doc drives doc d).1)
