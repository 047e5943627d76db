-- ===== src/TreeDb/Laws/Items.antt =====
-- `queue_delete_item` and `get_item` together.
use py_youwol.Prelude.{
  String, not, ◌&&◌, ◌≡◌, refl, ◌∙◌, sym, ap, Bool, true, false, some, [], ◌∷◌, ◌==◌, if◌then◌else◌,
}
use mathlib.Core.Path.{subst}
use py_youwol.Prelude.Dict.{get, put}
use py_youwol.Prelude.Exec.{Result, ok, err, http, then_ok, pure, lift, ◌>>=◌}
use py_youwol.DocDb.Models.{Doc}
use py_youwol.DocDb.Local.{get_document}
use py_youwol.DocDb.Table.Reads.{found}
use py_youwol.TreeDb.Models.{Codec, DocDbs, ItemResponse}
use py_youwol.TreeDb.Docs.{doc_to_item, deleted_item}
use py_youwol.TreeDb.Access.{look, table_of, items, deleted, public_owner, db_get}
use py_youwol.TreeDb.Handlers.Items.{get_item, queue_delete_item, to_trash}
use py_youwol.TreeDb.Invariant.Tables.{IsDoc, IsTree}
use py_youwol.TreeDb.Invariant.Rules.{db_get-IsDoc, db_post-Keeps}
use py_youwol.TreeDb.Laws.Trash.{IsTrashOf, deleted_item-of_item}
use py_youwol.TreeDb.Laws.Blocks.{then_ok-if, continue-lift, field_of-get}
use py_youwol.TreeDb.Laws.Store.{
  group_of_doc, doc_at, get_document_lem, db_get_lem, db_post_lem, posted, db_get-posted, removed,
  db_delete_lem, db_get-removed,
}

abbrev key_doc : String → String → Doc
key_doc id group_id = ("item_id", id) ∷ ("group_id", group_id) ∷ []

-- The tables after the item went to the trash, or was erased.
abbrev trashed : Bool → Doc → DocDbs → DocDbs
trashed erase x s = if erase then s else posted deleted x s

other_tables :
    (erase : Bool) (x : Doc) (s : DocDbs)
    → ((trashed erase x s).folders_db ≡ s.folders_db)
      × ((trashed erase x s).drives_db ≡ s.drives_db)
other_tables true x s = (refl, refl)
other_tables false x s = (refl, refl)

module _ (c : Codec) where
  pub get_item-document :
      (j : String) (s : DocDbs)
      → (get_item c j s).0
        ≡ then_ok
            (get_document (("item_id", j) ∷ []) [] public_owner s.items_db)
            (λ d. doc_to_item c d [])
  unfolding get_item ◌>>=◌ db_get look
  get_item-document j s =
      ap (λ (x : Result ItemResponse × DocDbs). x.0)
        (continue-lift (get_document (("item_id", j) ∷ []) [] public_owner s.items_db)
          (λ d. doc_to_item c d []) s)

module _ (id : String) (s : DocDbs) (h : IsTree s) (d : Doc)
    (there : doc_at items id s ≡ some d) where
  is_doc : IsDoc items d × (get "item_id" d ≡ some id)
  is_doc =
      db_get-IsDoc items id s h d
        (ap (λ (x : Result Doc × DocDbs). x.0) (db_get_lem items id s h) ∙ rw there)

  to_trash_lem :
      (erase : Bool) (x : Doc)
      → deleted_item d ≡ ok x
      → IsDoc deleted x
      → get "deleted_id" x ≡ some id
      → to_trash erase d s ≡ (ok tt, trashed erase x s)
  unfolding ◌>>=◌ lift pure
  to_trash_lem true x e h' k = refl
  to_trash_lem false x e h' k = rw e (db_post_lem deleted x id s h k h')

  trashed-IsTree :
      (erase : Bool) (x : Doc)
      → deleted_item d ≡ ok x
      → IsDoc deleted x
      → get "deleted_id" x ≡ some id
      → IsTree (trashed erase x s)
  trashed-IsTree true x e h' k = h
  trashed-IsTree false x e h' k =
      subst (λ (p : Result (Unit {0}) × DocDbs). IsTree p.1) (db_post_lem deleted x id s h k h')
        ((db_post-Keeps deleted x h').at s h)

  queue_delete_item_lem :
      (erase : Bool) (x : Doc) (g : String)
      → deleted_item d ≡ ok x
      → IsDoc deleted x
      → get "deleted_id" x ≡ some id
      → get "group_id" d ≡ some g
      → queue_delete_item id erase s ≡ (ok tt, removed items (key_doc id g) (trashed erase x s))
  unfolding queue_delete_item ◌>>=◌ lift
  queue_delete_item_lem erase x g e h' k group =
      rw (db_get_lem items id s h, there)
        (rw (
          to_trash_lem erase x e h' k,
          field_of-get d "item_id" id is_doc.1,
          field_of-get d "group_id" g group,
          db_delete_lem items (key_doc id g) id (trashed erase x s) (trashed-IsTree erase x e h' k)
              refl,
        ))

  items_of_trashed :
      (erase : Bool) (x : Doc) (j : String) → doc_at items j (trashed erase x s) ≡ doc_at items j s
  items_of_trashed true x j = refl
  items_of_trashed false x j = refl

  trash_of_trashed :
      (erase : Bool) (x : Doc) (j : String)
      → IsDoc deleted x
      → get "deleted_id" x ≡ some id
      → get_document (("deleted_id", j) ∷ []) [] public_owner (table_of deleted (trashed erase x s))
        ≡ (if not erase && id == j
            then ok (put "owner" public_owner x)
            else found (doc_at deleted j s))
  trash_of_trashed true x j h' k = get_document_lem deleted j s h
  trash_of_trashed false x j h' k = db_get-posted deleted x id s h k j h'

-- What `out` says of the deletion of the item `id` with the document `d`: it succeeds; reading the item
-- is a 404 then, and every other item is read as before; the trash has its document, unless it was
-- to be erased, and every other document that it had; the tables of folders and of drives are the
-- ones that were there.
abbrev pub Deletes : Codec → String → Bool → DocDbs → Doc → Result (Unit {0}) × DocDbs → Type 0
Deletes c id erase s d out =
    (out.0 ≡ ok tt)
    × ((j : String)
        → (get_item c j out.1).0 ≡ (if id == j then err (http 404) else (get_item c j s).0))
    × ((x : Doc) × IsTrashOf d x
        × ((j : String)
            → (db_get deleted "deleted_id" j out.1).0 ≡ (
                if not erase && id == j
                then ok (put "owner" public_owner x)
                else (db_get deleted "deleted_id" j s).0)))
    × (out.1.folders_db ≡ s.folders_db)
    × (out.1.drives_db ≡ s.drives_db)

-- On well-formed tables, deleting an item that is there, with or without `erase`, succeeds: the item
-- is a 404 from then on, and every other item is read as before; unless erased, it is in the trash
-- under its identifier, with its drive, kind, asset, name, group and metadata, and its folder as the
-- parent; under other identifiers the trash is read as before; the tables of folders and of drives
-- are the ones that were there.
pub get_item-queue_delete_item :
    (c : Codec) (id : String) (erase : Bool) (s : DocDbs) (d : Doc)
    → IsTree s
    → doc_at items id s ≡ some d
    → Deletes c id erase s d (queue_delete_item id erase s)
unfolding db_get look
get_item-queue_delete_item c id erase s d h there =
    let (at_items, key) = is_doc id s h d there in
    let (x, e, h', k, is_trash) = deleted_item-of_item d id at_items key in
    let (g, group) = group_of_doc items d at_items in
    let s₁ : DocDbs = trashed erase x s in
    let h₁ = trashed-IsTree id s h d there erase x e h' k in
    let frame = other_tables erase x s in
    subst (Deletes c id erase s d)
      (sym (queue_delete_item_lem id s h d there erase x g e h' k group))
      (
        refl,
        λ j.
            get_item-document c j (removed items (key_doc id g) s₁)
            ∙ rw (db_get-removed items (key_doc id g) id s₁ h₁ refl j) (
                then_ok-if (id == j) (err (http 404)) (found (doc_at items j s₁))
                  (λ y. doc_to_item c y [])
                ∙ rw (
                  items_of_trashed id s h d there erase x j,
                  get_item-document c j s,
                  get_document_lem items j s h,
                )),
        (
          x,
          is_trash,
          λ j. trash_of_trashed id s h d there erase x j h' k ∙ rw (get_document_lem deleted j s h),
        ),
        frame.0,
        frame.1,
      )
