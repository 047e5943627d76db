-- ===== src/TreeDb/Laws/Content.antt =====
-- What is in a drive, read off the tables: the listings of src/youwol/backends/tree_db/utils.py are
-- empty where there is none of it.
use py_youwol.Prelude.{
  String, Bool, not, ◌≡◌, refl, ◌∙◌, sym, ap, some, List, [], ◌∷◌, ◌&&◌, true, false, inl, inr,
  Option-cases, arith, ℕ, suc, ◌||◌, any, select, take,
}
use py_youwol.DocDb.Table.Rows.{has_value, is_row}
use py_youwol.TreeDb.Docs.{convert_all}
use py_youwol.TreeDb.Access.{public_owner}
use py_youwol.TreeDb.Listing.{of_kind, deleted_to_folder, deleted_to_item}
use py_youwol.Prelude.Dict.{get}
use py_youwol.Prelude.Exec.{
  Result, ok, err, ◌>>=◌, pure, lift, then_ok, then_ok-eq-ok, ok-injective,
}
use py_youwol.DocDb.Models.{Doc, field_of}
use py_youwol.TreeDb.Models.{Codec, DocDbs, ItemResponse, FolderResponse, ChildrenResponse}
use py_youwol.TreeDb.Listing.{entities_children, list_deleted}
use py_youwol.TreeDb.Invariant.Tables.{IsTree}
use py_youwol.Prelude.Exec.Returns.{Result-cases}
use py_youwol.DocDb.Parse.Laws.{IsPlain}
use py_youwol.Prelude.Text.{has}
use py_youwol.TreeDb.Access.{items, folders, deleted}
use py_youwol.TreeDb.Laws.Parent.{folder_id-IsPlain, drive_id-IsPlain, lacks_equals}
use py_youwol.TreeDb.Laws.Store.{db_query_lem}

abbrev pub is_empty : {A : Type 0} → List A → Bool
is_empty [] = true
is_empty (x ∷ xs) = false

abbrev pub no_content : ChildrenResponse → ChildrenResponse → Bool
no_content content trash =
    (is_empty content.folders && is_empty content.items)
    && (is_empty trash.items && is_empty trash.folders)

parent-IsPlain : IsPlain "parent_folder_id" × (has b'=' "parent_folder_id" ≡ false)
unfolding has
parent-IsPlain = (
  record { no_at = refl; no_hash = refl; no_comma = refl; no_less = refl; no_greater = refl },
  refl,
)

-- A drive has content: a folder or an item of the public owner lies at its root, or one of the first
-- hundred documents of its trash is of a folder or of an item.
abbrev pub is_trash : Doc → Bool
is_trash d = has_value "kind" "folder" d || has_value "kind" "item" d

abbrev pub has_content : String → DocDbs → Bool
has_content id s =
    any (is_row "parent_folder_id" public_owner id) s.folders_db.documents
    || (any (is_row "folder_id" public_owner id) s.items_db.documents
        || any is_trash
            (take 100 (select (is_row "drive_id" public_owner id) s.deleted_db.documents)))

-- Nothing is converted from nothing, and something from something.
is_empty-convert_all :
    {A : Type 0} (f : Doc → Result A) (ds : List Doc) (as' : List A)
    → convert_all f ds ≡ ok as'
    → is_empty as' ≡ is_empty ds
is_empty-convert_all f [] as' e = ap is_empty (sym (ok-injective e))
is_empty-convert_all f (d ∷ ds) as' e =
    let (a, ea, rest) = then_ok-eq-ok (f d) _ e in
    let (bs, eb, last) = then_ok-eq-ok (convert_all f ds) _ rest in
    ap is_empty (sym (ok-injective last))

get_of_field : (d : Doc) (c v : String) → field_of d c ≡ ok v → get c d ≡ some v
get_of_field d c v e = elim (Option-cases (get c d)) [
  | inl n ↦ cc (rw (field_of, n) at e)
  | inr (w, t) ↦ t ∙ ap some (ok-injective (rw (field_of, t) at e))
]

is_empty-take :
    (p : Doc → Bool) (n : ℕ) (ds : List Doc)
    → is_empty (take (suc n) (select p ds)) ≡ not (any p ds)
is_empty-take p n [] = refl
is_empty-take p n (d ∷ ds) = ground (arith, is_empty-take p n ds)

is_empty-of_kind :
    (kind : String) (ds fs : List Doc)
    → of_kind kind ds ≡ ok fs
    → is_empty fs ≡ not (any (has_value "kind" kind) ds)
is_empty-of_kind kind [] fs e = ap is_empty (sym (ok-injective e))
is_empty-of_kind kind (d ∷ ds) fs e =
    let (k, ek, rest) = then_ok-eq-ok (field_of d "kind") _ e in
    let (r, er, last) = then_ok-eq-ok (of_kind kind ds) _ rest in
    let there : get "kind" d ≡ some k = get_of_field d "kind" k ek in
    ap is_empty (sym (ok-injective last)) ∙ ground (arith, there, is_empty-of_kind kind ds r er)

neither : (x y : Bool) → (not y && not x) ≡ not (x || y)
neither x y = ground arith

any-or : (p q : Doc → Bool) (ds : List Doc) → (any p ds || any q ds) ≡ any (λ d. p d || q d) ds
any-or p q [] = refl
any-or p q (d ∷ ds) = ground (arith, any-or p q ds)

-- What was converted, from what is listed.
children_of :
    {s : DocDbs} (r : Result (List FolderResponse)) (q : Result (List ItemResponse))
    (content : ChildrenResponse)
    → (lift r >>= λ fs. lift q >>= λ is. pure (record { items = is; folders = fs })) s
      ≡ (ok content, s)
    → (r ≡ ok content.folders) × (q ≡ ok content.items)
unfolding ◌>>=◌ lift pure
children_of {s} (ok fs) (ok is) content e = (
  ap (λ (x : Result ChildrenResponse × DocDbs). then_ok x.0 (λ c. ok c.folders)) e,
  ap (λ (x : Result ChildrenResponse × DocDbs). then_ok x.0 (λ c. ok c.items)) e,
)
children_of (ok fs) (err x) content e = cc
children_of (err x) q content e = cc

trash_of :
    {s : DocDbs} (r q : Result (List Doc)) (f : List Doc → Result (List FolderResponse))
    (g : List Doc → Result (List ItemResponse)) (trash : ChildrenResponse)
    → (lift r >>= λ fd. lift (f fd) >>= λ fs.
          lift q >>= λ id. lift (g id) >>= λ is. pure (record { items = is; folders = fs }))
        s
      ≡ (ok trash, s)
    → ((fd : List Doc) × (r ≡ ok fd) × (f fd ≡ ok trash.folders))
      × ((id : List Doc) × (q ≡ ok id) × (g id ≡ ok trash.items))
unfolding ◌>>=◌ lift pure
trash_of (err x) q f g trash e = cc
trash_of {s} (ok fd) (err x) f g trash e = elim (Result-cases (f fd)) [
  | inl (fs, t) ↦ cc (rw t at e)
  | inr (y, t) ↦ cc (rw t at e)
]
trash_of {s} (ok fd) (ok id) f g trash e = elim (Result-cases (f fd)) [
  | inr (y, t) ↦ cc (rw t at e)
  | inl (fs, t) ↦ elim (Result-cases (g id)) [
    | inr (y, u) ↦ cc (rw (t, u) at e)
    | inl (is, u) ↦
        let both : (ok (record { items = is; folders = fs }), s) ≡ (ok trash, s) = rw (t, u) at e in
        (
          (
            fd,
            refl,
            t ∙ ap (λ (x : Result ChildrenResponse × DocDbs). then_ok x.0 (λ c. ok c.folders)) both,
          ),
          (
            id,
            refl,
            u ∙ ap (λ (x : Result ChildrenResponse × DocDbs). then_ok x.0 (λ c. ok c.items)) both,
          ),
        )
  ]
]

module _ (c : Codec) (id : String) (s : DocDbs) (h : IsTree s) (plain : IsPlain id) where
  content_lem :
      (content : ChildrenResponse)
      → entities_children c id s ≡ (ok content, s)
      → (is_empty content.folders
          ≡ not (any (is_row "parent_folder_id" public_owner id) s.folders_db.documents))
        × (is_empty content.items
            ≡ not (any (is_row "folder_id" public_owner id) s.items_db.documents))
  unfolding entities_children ◌>>=◌
  content_lem content e =
      let p = is_row "parent_folder_id" public_owner id in
      let q = is_row "folder_id" public_owner id in
      let (fs, is) = children_of _ _ content (
        rw
          (
            db_query_lem folders "parent_folder_id" id 1000 s h parent-IsPlain.0 parent-IsPlain.1
                plain refl,
            db_query_lem items "folder_id" id 1000 s h folder_id-IsPlain lacks_equals.0 plain refl,
          )
          at e) in
      (
        is_empty-convert_all _ _ content.folders fs ∙ is_empty-take p 999 s.folders_db.documents,
        is_empty-convert_all _ _ content.items is ∙ is_empty-take q 999 s.items_db.documents,
      )

  trash_lem :
      (trash : ChildrenResponse)
      → list_deleted c id s ≡ (ok trash, s)
      → (is_empty trash.items && is_empty trash.folders)
        ≡ not (
            any is_trash
              (take 100 (select (is_row "drive_id" public_owner id) s.deleted_db.documents)))
  unfolding list_deleted ◌>>=◌
  trash_lem trash e =
      let docs = take 100 (select (is_row "drive_id" public_owner id) s.deleted_db.documents) in
      let ((fd, kf, cf), (is, ki, ci)) =
        trash_of (of_kind "folder" docs) (of_kind "item" docs) (convert_all deleted_to_folder)
          (convert_all (deleted_to_item c)) trash
          (rw
            (db_query_lem deleted "drive_id" id 100 s h drive_id-IsPlain lacks_equals.1 plain refl)
            at e) in
      rw
        (
          is_empty-convert_all deleted_to_folder fd trash.folders cf,
          is_empty-convert_all (deleted_to_item c) is trash.items ci,
          is_empty-of_kind "folder" docs fd kf,
          is_empty-of_kind "item" docs is ki,
        )
        (neither (any (has_value "kind" "folder") docs) (any (has_value "kind" "item") docs)
          ∙ ap not (any-or (has_value "kind" "folder") (has_value "kind" "item") docs))

  pub no_content-has_content :
      (content trash : ChildrenResponse)
      → entities_children c id s ≡ (ok content, s)
      → list_deleted c id s ≡ (ok trash, s)
      → no_content content trash ≡ not (has_content id s)
  no_content-has_content content trash e₁ e₂ =
      let (a, b) = content_lem content e₁ in
      let t = trash_lem trash e₂ in rw (a, b, t) (ground arith)
