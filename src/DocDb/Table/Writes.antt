-- ===== src/DocDb/Table/Writes.antt =====
-- The writing methods of local_docdb.py on a well-formed table: `upsert` and a filter.
use py_youwol.Prelude.{
  ℕ, ◌≤◌, String, ◌≡◌, refl, ◌∙◌, ap, inl, inr, Bool-cases, Bool, true, false, not, some, List, [],
  ◌∷◌, arith, eq_iff, eq_refl, select, All,
}
use py_youwol.Prelude.Dict.{get, put}
use py_youwol.Prelude.Exec.{ok}
use py_youwol.DocDb.Models.{Doc, TableBody}
use py_youwol.DocDb.Local.{LocalDocDb, primary_key_id, key_eq}
use py_youwol.DocDb.Write.{
  same_key, count_same, replace_first, write, place, update_document, remove_item, remove_items,
  to_remove, delete_document,
}
use py_youwol.DocDb.Table.Rows.{
  has_value, is_row, HasColumn, IsFresh, IsKeyed, key_of_value, IsFresh-eq, upsert,
}
use py_youwol.DocDb.Table.Reads.{IsSimple, IsTable, IsComplete, filter_docs-select}

module _ (table : TableBody) (pk : String) (simple : IsSimple table pk) (k : String) (x : Doc)
    (key : get pk x ≡ some k) where
  same_key-value : (d : Doc) → HasColumn d pk → same_key table x d ≡ ok (has_value pk k d)
  unfolding same_key primary_key_id
  same_key-value d (w, e) = rw (simple.partition, simple.clustering) (ground (arith, eq_refl pk))

  count_of_fresh : (ds : List Doc) → IsKeyed pk ds → IsFresh pk k ds → count_same table x ds ≡ ok 0
  unfolding count_same
  count_of_fresh [] h f = refl
  count_of_fresh (d ∷ ds) h f =
      ground (arith, same_key-value d (h.0.0, h.0.1), count_of_fresh ds h.1)

  count_of_keyed :
      (ds : List Doc) → IsKeyed pk ds → (n : ℕ) × (count_same table x ds ≡ ok n) × (n ≤ 1)
  unfolding count_same
  count_of_keyed [] h = (0, refl, omega arith)
  count_of_keyed (d ∷ ds) h = elim (Bool-cases (has_value pk k d)) [
    | inl t ↦
        let e = IsFresh-eq pk ds (key_of_value pk k h.0.0 d h.0.1 t) h.0.2 in
        (1, ground (arith, same_key-value d (h.0.0, h.0.1), count_of_fresh ds h.1 e), omega arith)
    | inr n ↦
        let (m, e, le) = count_of_keyed ds h.1 in
        (m, ground (arith, same_key-value d (h.0.0, h.0.1)), le)
  ]

  -- With no document of the key, the new one comes last; with one, it takes its place.
  place-upsert :
      (ds : List Doc)
      → IsKeyed pk ds
      → (n : ℕ) → count_same table x ds ≡ ok n
      → place table x ds n ≡ upsert (has_value pk k) x ds
  unfolding count_same replace_first upsert
  place-upsert [] h n e = ground arith
  place-upsert (d ∷ ds) h n e = elim (Bool-cases (has_value pk k d)) [
    | inl t ↦
        let f = IsFresh-eq pk ds (key_of_value pk k h.0.0 d h.0.1 t) h.0.2 in
        rw t (ground (arith, same_key-value d (h.0.0, h.0.1), count_of_fresh ds h.1 f))
    | inr ne ↦ rw ne (ground (arith, same_key-value d (h.0.0, h.0.1), place-upsert ds h.1 n))
  ]

abbrev owned : Doc → String → Doc
owned doc owner = put "owner" owner doc

-- `update_document` succeeds on a well-formed table, and puts the document, with its owner, in the
-- place of the one that had its key, or behind the others; the file holds the same documents.
pub update_document-upsert :
    (pk k owner : String) (doc : Doc) (db : LocalDocDb)
    → IsTable pk db
    → get pk (put "owner" owner doc) ≡ some k
    → update_document doc owner db
      ≡ (ok tt, write (upsert (has_value pk k) (put "owner" owner doc) db.documents) db)
unfolding update_document
update_document-upsert pk k owner doc db t key =
    let x = put "owner" owner doc in
    let (n, e, le) = count_of_keyed db.table_body pk t.simple k x key db.documents t.keyed in
    rw e (rw (place-upsert db.table_body pk t.simple k x key db.documents t.keyed n e))

key_eq_refl : (d : Doc) → key_eq d d ≡ true
key_eq_refl [] = refl
key_eq_refl ((a, b) ∷ d) = ground (arith, eq_refl a, eq_refl b, key_eq_refl d)

pub key_eq-eq : (c d : Doc) → key_eq c d ≡ true → c ≡ d
key_eq-eq [] [] h = refl
key_eq-eq [] (x ∷ d) h = cc
key_eq-eq (x ∷ c) [] h = cc
key_eq-eq ((a, b) ∷ c) ((x, y) ∷ d) h = ground (arith, eq_iff a x, eq_iff b y, key_eq-eq c d)

key-ne_of_test : (q : Doc → Bool) (d i : Doc) → q d ≡ false → q i ≡ true → key_eq d i ≡ false
key-ne_of_test q d i e t = elim (Bool-cases (key_eq d i)) [
  | inl same ↦ cc (ap q (key_eq-eq d i same))
  | inr ne ↦ ne
]

remove_items-cons :
    (q : Doc → Bool) (d : Doc) (items ds : List Doc)
    → q d ≡ false
    → All (λ i. q i ≡ true) items
    → remove_items items (d ∷ ds) ≡ d ∷ remove_items items ds
unfolding remove_items remove_item
remove_items-cons q d [] ds e a = refl
remove_items-cons q d (i ∷ items) ds e a =
    rw (key-ne_of_test q d i e a.0) (remove_items-cons q d items (remove_item i ds) e a.1)

All-select : (q : Doc → Bool) (ds : List Doc) → All (λ i. q i ≡ true) (select q ds)
All-select q [] = tt
All-select q (d ∷ ds) = ground (arith, All-select q ds)

-- Removing the selected documents one by one leaves the others, in their order.
pub remove_items-select :
    (q : Doc → Bool) (ds : List Doc) → remove_items (select q ds) ds ≡ select (λ d. not (q d)) ds
unfolding remove_items remove_item
remove_items-select q [] = refl
remove_items-select q (d ∷ ds) = elim (Bool-cases (q d)) [
  | inl t ↦ rw t (ground (arith, key_eq_refl d, remove_items-select q ds))
  | inr n ↦ rw n (
      remove_items-cons q d (select q ds) ds n (All-select q ds)
      ∙ ap (λ l. d ∷ l) (remove_items-select q ds))
]

module _ (table : TableBody) (pk : String) (simple : IsSimple table pk) (k : String) (x : Doc)
    (key : get pk x ≡ some k) (owner : String) where
  to_remove-row :
      (columns : List String) (ds : List Doc)
      → IsKeyed pk ds
      → IsComplete columns ds
      → All (λ d. to_remove table x owner d ≡ ok (is_row pk owner k d)) ds
  to_remove-row columns [] h c = tt
  to_remove-row columns (d ∷ ds) h c = (
    ground (arith, same_key-value table pk simple k x key d (h.0.0, h.0.1), c.0.0.1),
    to_remove-row columns ds h.1 c.1,
  )

-- `delete_document` succeeds on a well-formed table, and removes the document that has the key and
-- the owner, nothing else; the file holds the same documents.
pub delete_document-select :
    (pk k owner : String) (doc : Doc) (db : LocalDocDb)
    → IsTable pk db
    → get pk doc ≡ some k
    → delete_document doc owner db
      ≡ (ok tt, write (select (λ d. not (is_row pk owner k d)) db.documents) db)
unfolding delete_document
delete_document-select pk k owner doc db t key =
    rw
      (filter_docs-select (to_remove db.table_body doc owner) (is_row pk owner k) db.documents (
        to_remove-row db.table_body pk t.simple k doc key owner db.table_body.columns db.documents
          t.keyed t.complete))
      (rw (remove_items-select (is_row pk owner k) db.documents))
