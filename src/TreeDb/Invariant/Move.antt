-- ===== src/TreeDb/Invariant/Move.antt =====
-- `move` of src/youwol/backends/tree_db/routers/entities.py keeps the tables.
use py_youwol.Prelude.{
  String, ◌≡◌, sym, refl, ◌⊎◌, inl, inr, Bool, true, false, none, List, [], ◌∷◌, if◌then◌else◌, ℕ,
  zero, suc, All,
}
use mathlib.Core.Path.{subst}
use py_youwol.Prelude.Dict.{get, put}
use py_youwol.Prelude.Exec.{Result, ok, err, ok-injective, Exec}
use py_youwol.Prelude.Exec.Keeps.{
  Keeps, Keeps-pure, Keeps-raise, Keeps-lift, Keeps-if, Keeps-bind, Keeps-bind-lift, Keeps-gather,
}
use py_youwol.DocDb.Models.{Doc}
use py_youwol.DocDb.Local.{has_key}
use py_youwol.DocDb.Table.Rows.{HasColumn}
use py_youwol.TreeDb.Models.{Codec, DocDbs, MoveItemBody, MoveResponse, EntityResponse}
use py_youwol.TreeDb.Access.{Table, items, folders, drives, db_query}
use py_youwol.TreeDb.Handlers.Entities.{
  Destination, destination_of, sources, moved, query_if, get_entity, entity_or_404, move_folder,
  move_item, move_target, move_found, move,
}
use py_youwol.TreeDb.Invariant.Tables.{IsDoc, IsTree}
use py_youwol.TreeDb.Invariant.Rules.{db_query-Keeps, db_post-Keeps, db_query-IsDoc}
use py_youwol.TreeDb.Invariant.Helpers.{entities_children-Keeps}
use py_youwol.TreeDb.Invariant.Handlers.{IsFree, put-IsDoc, All-map, All-append}

-- A document of the items or of the folders.
abbrev IsEither : Doc → Type 0
IsEither d = IsDoc items d ⊎ IsDoc folders d

All-map_to {ℓ} :
    {A : Type 0} (P Q : A → Type ℓ) (xs : List A) → ((x : A) → P x → Q x) → All P xs → All Q xs
All-map_to P Q [] f h = tt
All-map_to P Q (x ∷ xs) f h = (f x h.0, All-map_to P Q xs f h.1)

sources-IsEither :
    (r q : Result (List Doc)) (ds : List Doc)
    → ((xs : List Doc) → r ≡ ok xs → All (IsDoc items) xs)
    → ((ys : List Doc) → q ≡ ok ys → All (IsDoc folders) ys)
    → sources r q ≡ ok ds
    → All IsEither ds
sources-IsEither (ok xs) (ok ys) ds hr hq e = subst (All IsEither) (ok-injective e) (
    All-append IsEither xs ys (All-map_to (IsDoc items) IsEither xs (λ x h. inl h) (hr xs refl))
      (All-map_to (IsDoc folders) IsEither ys (λ x h. inr h) (hq ys refl)))
sources-IsEither (ok xs) (err x) ds hr hq e = cc
sources-IsEither (err x) q ds hr hq e = cc

moved-IsDoc :
    (t : Table) (parent : String) (to : Destination) (d : Doc)
    → IsFree t parent
    → IsFree t "group_id"
    → IsFree t "drive_id"
    → IsDoc t d
    → IsDoc t (moved parent to d)
moved-IsDoc t parent to d p g r h =
    let placed : Doc = put parent to.id d in
    let grouped : Doc = put "group_id" to.group_id placed in
    put-IsDoc t "drive_id" to.drive_id grouped r
      (put-IsDoc t "group_id" to.group_id placed g (put-IsDoc t parent to.id d p h))

has_key-none : (k : String) (d : Doc) → get k d ≡ none → has_key k d ≡ false
has_key-none k d e = rw (e, has_key)

has_key-some : (k : String) (d : Doc) → HasColumn d k → has_key k d ≡ true
has_key-some k d (v, e) = rw (e, has_key)

query_if-Keeps : (b : Bool) (t : Table) (key id : String) → Keeps IsTree (query_if b t key id)
query_if-Keeps true t key id = db_query-Keeps t key id 1
query_if-Keeps false t key id = Keeps-pure []

module _ (c : Codec) where
  entity_or_404-Keeps : (ds : List Doc) → Keeps IsTree (entity_or_404 c ds)
  entity_or_404-Keeps [] = Keeps-raise _
  entity_or_404-Keeps (d ∷ ds) = Keeps-lift _

  pub get_entity-Keeps : (id : String) (d f i : Bool) → Keeps IsTree (get_entity c id d f i)
  unfolding get_entity
  get_entity-Keeps id d f i = Keeps-bind _ _ (query_if-Keeps i items _ id) λ xs.
      Keeps-bind _ _ (query_if-Keeps f folders _ id)
        λ ys. Keeps-bind _ _ (query_if-Keeps d drives _ id) λ zs. entity_or_404-Keeps _

  module _ (recur : MoveItemBody → Exec DocDbs MoveResponse)
      (keeps : (b : MoveItemBody) → Keeps IsTree (recur b)) where
    move_folder-Keeps :
        (to : Destination) (d : Doc) → IsDoc folders d → Keeps IsTree (move_folder c recur to d)
    unfolding move_folder
    move_folder-Keeps to d h =
        Keeps-bind _ _
          (db_post-Keeps folders _ (moved-IsDoc folders "parent_folder_id" to d tt tt tt h))
          λ _. Keeps-bind _ _ (Keeps-lift _) λ stays. Keeps-if _ _ _ (Keeps-pure _) (
            Keeps-bind _ _ (Keeps-lift _) λ folder_id.
              Keeps-bind _ _ (entities_children-Keeps c folder_id) λ content.
                Keeps-bind _ _ (Keeps-gather _ (All-map (Keeps IsTree) recur _ keeps))
                  λ results. Keeps-pure _)

    move_item-Keeps : (to : Destination) (d : Doc) → IsDoc items d → Keeps IsTree (move_item c to d)
    unfolding move_item
    move_item-Keeps to d h =
        Keeps-bind _ _ (db_post-Keeps items _ (moved-IsDoc items "folder_id" to d refl refl refl h))
          λ _. Keeps-bind _ _ (Keeps-lift _) λ item. Keeps-pure _

    -- The column `parent_folder_id` tells which it is.
    move_target-Keeps :
        (to : Destination) (d : Doc) → IsEither d → Keeps IsTree (move_target c recur to d)
    move_target-Keeps to d (inl h) =
        subst (λ b. Keeps IsTree (if b then move_folder c recur to d else move_item c to d))
          (sym (has_key-none "parent_folder_id" d h.1)) (move_item-Keeps to d h)
    move_target-Keeps to d (inr h) =
        subst (λ b. Keeps IsTree (if b then move_folder c recur to d else move_item c to d))
          (sym (has_key-some "parent_folder_id" d h.0.1.0)) (move_folder-Keeps to d h)

    move_found-Keeps :
        (r : Result EntityResponse) (ds : List Doc)
        → All IsEither ds
        → Keeps IsTree (move_found c recur r ds)
    move_found-Keeps r [] h = Keeps-raise _
    move_found-Keeps (err e) (d ∷ ds) h = Keeps-raise _
    move_found-Keeps (ok e) (d ∷ ds) h = move_target-Keeps (destination_of e) d h.0

  pub move-Keeps : (fuel : ℕ) (body : MoveItemBody) → Keeps IsTree (move c fuel body)
  unfolding move
  move-Keeps zero body = record { at = λ s h. h }
  move-Keeps (suc fuel) body = record {
    at = λ s h.
        let q = db_query items "item_id" body.target_id 1 s in
        let hq : IsTree q.1 = (db_query-Keeps items "item_id" body.target_id 1).at s h in
        let f = db_query folders "folder_id" body.target_id 1 q.1 in
        let hf : IsTree f.1 = (db_query-Keeps folders "folder_id" body.target_id 1).at q.1 hq in
        let e = get_entity c body.destination_folder_id true true false f.1 in
        (Keeps-bind-lift (sources q.0 f.0) (move_found c (move c fuel) e.0) (λ ds s'.
            move_found-Keeps (move c fuel) (move-Keeps fuel) e.0 ds (
              sources-IsEither q.0 f.0 ds (db_query-IsDoc items "item_id" body.target_id 1 s h)
                (db_query-IsDoc folders "folder_id" body.target_id 1 q.1 hq) s'))).at
          e.1 ((get_entity-Keeps body.destination_folder_id true true false).at f.1 hf);
  }
