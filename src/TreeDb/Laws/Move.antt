-- ===== src/TreeDb/Laws/Move.antt =====
-- `move` of an item, and `get_item`.
use py_youwol.Prelude.{
  ℕ, suc, String, ◌≡◌, refl, ◌∙◌, sym, ap, true, false, Option, none, some, List, [], ◌∷◌, ◌==◌,
  if◌then◌else◌, take, select,
}
use mathlib.Core.Path.{subst}
use py_youwol.Prelude.Dict.{get, put}
use py_youwol.Prelude.Exec.{Result, ok, then_ok, pure, lift, ◌>>=◌, Exec}
use py_youwol.Prelude.Text.{has}
use py_youwol.DocDb.Parse.Laws.{IsPlain}
use py_youwol.DocDb.Models.{Doc}
use py_youwol.DocDb.Local.{has_key}
use py_youwol.DocDb.Table.Reads.{found}
use py_youwol.DocDb.Table.Rows.{is_row}
use py_youwol.TreeDb.Models.{
  Codec, DocDbs, ItemResponse, EntityResponse, item_entity, folder_entity, drive_entity,
  MoveItemBody, MoveResponse,
}
use py_youwol.TreeDb.Docs.{doc_to_item}
use py_youwol.TreeDb.Access.{items, folders, public_owner}
use py_youwol.TreeDb.Handlers.Items.{get_item}
use py_youwol.TreeDb.Handlers.Entities.{
  Destination, destination_of, get_entity, move_item, move_target, move_found, move,
}
use py_youwol.TreeDb.Invariant.Tables.{IsDoc, IsTree}
use py_youwol.TreeDb.Invariant.Rules.{db_get-IsDoc}
use py_youwol.TreeDb.Laws.Store.{
  doc_at, db_get_lem, get_document_lem, db_query_lem, db_post_lem, posted, db_get-posted,
}
use py_youwol.TreeDb.Laws.Parent.{folder_id-IsPlain, lacks_equals}
use py_youwol.TreeDb.Laws.Items.{get_item-document}
use py_youwol.TreeDb.Laws.Blocks.{then_ok-if}
use py_youwol.TreeDb.Laws.Moved.{
  item_at, take_one, moved_doc, get-moved_doc, doc_to_item-moved_doc, doc_to_item-put_owner,
  document_of_item, moved_doc-IsDoc,
}

item_id-IsPlain : IsPlain "item_id"
unfolding has
item_id-IsPlain = record {
  no_at = refl;
  no_hash = refl;
  no_comma = refl;
  no_less = refl;
  no_greater = refl;
}

item_id_lacks : has b'=' "item_id" ≡ false
unfolding has
item_id_lacks = refl

-- An item that was put in a folder, or at the root of a drive: there, in the drive and the group of
-- the place, its other fields as they were. No item is a destination; it would stand for its drive.
abbrev pub placed : EntityResponse → ItemResponse → ItemResponse
placed (folder_entity f) i = record i {
  folder_id = f.folder_id;
  drive_id = f.drive_id;
  group_id = f.group_id;
}
placed (drive_entity d) i = record i {
  folder_id = d.drive_id;
  drive_id = d.drive_id;
  group_id = d.group_id;
}
placed (item_entity x) i = record i {
  folder_id = x.drive_id;
  drive_id = x.drive_id;
  group_id = x.group_id;
}

item_at-placed : (e : EntityResponse) (i : ItemResponse) → item_at (destination_of e) i ≡ placed e i
item_at-placed (folder_entity f) i = refl
item_at-placed (drive_entity d) i = refl
item_at-placed (item_entity x) i = refl

-- What `out` says of a move of the item `target`, to be read as `i` then: it returns that item
-- alone, which is what is read, every other item is read as before, and the tables of folders, of
-- drives and of the trash are the ones that were there.
abbrev pub MovesItem :
    Codec → String → ItemResponse → DocDbs → Result MoveResponse × DocDbs → Type 0
MovesItem c target i s out =
    (out.0 ≡ ok (record { folders_count = 0; items = i ∷ [] }))
    × ((j : String) → (get_item c j out.1).0 ≡ (if target == j then ok i else (get_item c j s).0))
    × (out.1.folders_db ≡ s.folders_db)
    × (out.1.drives_db ≡ s.drives_db)
    × (out.1.deleted_db ≡ s.deleted_db)

module _ (c : Codec) (fuel : ℕ) (target dest : String) (s : DocDbs) (h : IsTree s)
    (plain : IsPlain target) (e : EntityResponse)
    (destination : get_entity c dest true true false s ≡ (ok e, s)) where
  abbrev to : Destination
  to = destination_of e

  abbrev body : MoveItemBody
  body = record { target_id = target; destination_folder_id = dest }

  found_item :
      (recur : MoveItemBody → Exec DocDbs MoveResponse) (more : List Doc) (d : Doc)
      (i : ItemResponse)
      → IsDoc items d × (get "item_id" d ≡ some target)
      → doc_to_item c (moved_doc to d) [] ≡ ok i
      → move_found c recur (ok e) (d ∷ more) s
        ≡ (ok (record { folders_count = 0; items = i ∷ [] }), posted items (moved_doc to d) s)
  unfolding move_item ◌>>=◌ lift pure
  found_item recur more d i h' back =
      let key = get-moved_doc to d "item_id" ∙ h'.1 in
      let is_doc = moved_doc-IsDoc to d h'.0 in
      let is_item : has_key "parent_folder_id" d ≡ false =
        ap (λ (o : Option String). elim o [ none ↦ false | some v ↦ true ]) h'.0.1 in
      rw (move_target, is_item)
        (rw (db_post_lem items (moved_doc to d) target s h key is_doc, back) refl)

  move_lem :
      (d : Doc) (i : ItemResponse)
      → doc_at items target s ≡ some d
      → IsDoc items d × (get "item_id" d ≡ some target)
      → doc_to_item c (moved_doc to d) [] ≡ ok i
      → move c (suc fuel) body s
        ≡ (ok (record { folders_count = 0; items = i ∷ [] }), posted items (moved_doc to d) s)
  unfolding move move_item ◌>>=◌ lift pure
  move_lem d i there h' back =
      rw
        (
          db_query_lem items "item_id" target 1 s h item_id-IsPlain item_id_lacks plain refl,
          db_query_lem folders "folder_id" target 1 s h folder_id-IsPlain lacks_equals.0 plain refl,
          destination,
          take_one (is_row "item_id" public_owner target) d s.items_db.documents there,
        )
        (found_item (move c fuel)
          (take 1 (select (is_row "folder_id" public_owner target) s.folders_db.documents)) d i h'
          back)

  item_read :
      (d : Doc) (i : ItemResponse)
      → IsDoc items (moved_doc to d)
      → get "item_id" (moved_doc to d) ≡ some target
      → doc_to_item c (moved_doc to d) [] ≡ ok i
      → (j : String)
      → (get_item c j (posted items (moved_doc to d) s)).0
        ≡ (if target == j then ok i else (get_item c j s).0)
  item_read d i is_doc key back j =
      get_item-document c j (posted items (moved_doc to d) s)
      ∙ rw (db_get-posted items (moved_doc to d) target s h key j is_doc) (
          then_ok-if (target == j) (ok (put "owner" public_owner (moved_doc to d)))
            (found (doc_at items j s)) (λ y. doc_to_item c y [])
          ∙ rw
              (
                doc_to_item-put_owner c (moved_doc to d) public_owner,
                back,
                get_item-document c j s,
                get_document_lem items j s h,
              )
              refl)

  moves_item :
      (i : ItemResponse)
      → (get_item c target s).0 ≡ ok i
      → MovesItem c target (item_at to i) s (move c (suc fuel) body s)
  moves_item i read =
      let (d, there, reads) = document_of_item c target s i h read in
      let h' =
        db_get-IsDoc items target s h d
          (ap (λ (x : Result Doc × DocDbs). x.0) (db_get_lem items target s h) ∙ rw there) in
      let back =
        doc_to_item-moved_doc c to d h'.0 ∙ ap (λ r. then_ok r (λ x. ok (item_at to x))) reads in
      let key = get-moved_doc to d "item_id" ∙ h'.1 in
      subst (MovesItem c target (item_at to i) s) (sym (move_lem d (item_at to i) there h' back))
        (refl, item_read d (item_at to i) (moved_doc-IsDoc to d h'.0) key back, refl, refl, refl)

  -- On well-formed tables, for an item that is read, under an identifier without the characters
  -- `@ # , < >`, and a destination that `get_entity` finds among the folders and the drives, `move`
  -- returns the item in that folder or at the root of that drive, with its drive and its group; from
  -- then on it is read so, its other fields as they were, every other item is read as before, and the
  -- tables of folders, of drives and of the trash are the ones that were there.
  pub move-get_item :
      (i : ItemResponse)
      → (get_item c target s).0 ≡ ok i
      → MovesItem c target (placed e i) s (move c (suc fuel) body s)
  move-get_item i read =
      subst (λ x. MovesItem c target x s (move c (suc fuel) body s)) (item_at-placed e i)
        (moves_item i read)
