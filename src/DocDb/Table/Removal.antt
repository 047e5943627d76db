-- ===== src/DocDb/Table/Removal.antt =====
-- `delete_document` of local_docdb.py for any document: what is left of the table.
use py_youwol.Prelude.{String, ◌≡◌, refl, inl, inr, Bool-cases, false, List, [], ◌∷◌, All}
use mathlib.Core.Path.{subst}
use py_youwol.Prelude.Exec.{Result, ok, err, then_ok-eq-ok, ok-injective}
use py_youwol.DocDb.Models.{Doc}
use py_youwol.DocDb.Local.{LocalDocDb, key_eq, filter_docs}
use py_youwol.DocDb.Write.{
  write, write_or_raise, to_remove, remove_item, remove_items, delete_document,
}
use py_youwol.DocDb.Table.Rows.{has_value, IsKeyed}
use py_youwol.DocDb.Table.Reads.{IsTable}
use py_youwol.DocDb.Pairs.Cells.{is_cell, IsPaired}
use py_youwol.DocDb.Pairs.Methods.{IsPairTable}

module _ (P : LocalDocDb → Type 0) (db : LocalDocDb) where
  write_or_raise-keeps :
      (r : Result (List Doc))
      → ((docs : List Doc) → r ≡ ok docs → P (write docs db))
      → P db
      → P (write_or_raise r db).1
  write_or_raise-keeps (ok docs) h p = h docs refl
  write_or_raise-keeps (err e) h p = p

  -- What every removal of documents keeps, a deletion keeps.
  pub delete_document-keeps :
      (doc : Doc) (owner : String)
      → ((items : List Doc) → P (write (remove_items items db.documents) db))
      → P db
      → P (delete_document doc owner db).1
  unfolding delete_document
  delete_document-keeps doc owner h p =
      write_or_raise-keeps _
        (λ docs e.
          let (items, k, last) =
            then_ok-eq-ok (filter_docs (to_remove db.table_body doc owner) db.documents) _ e in
          subst (λ l. P (write l db)) (ok-injective last) (h items))
        p

module _ (Q : List Doc → Type 0)
    (step : (x : Doc) (ds : List Doc) → Q ds → Q (remove_item x ds)) where
  pub remove_items-keeps : (items ds : List Doc) → Q ds → Q (remove_items items ds)
  unfolding remove_items
  remove_items-keeps [] ds q = q
  remove_items-keeps (x ∷ items) ds q = remove_items-keeps items (remove_item x ds) (step x ds q)

pub remove_item-All :
    (P : Doc → Type 0) (x : Doc) (ds : List Doc) → All P ds → All P (remove_item x ds)
unfolding remove_item
remove_item-All P x [] h = tt
remove_item-All P x (d ∷ ds) h = elim (Bool-cases (key_eq d x)) [
  | inl t ↦ rw t h.1
  | inr n ↦ rw n ((h.0, remove_item-All P x ds h.1))
]

remove_item-IsKeyed :
    (pk : String) (x : Doc) (ds : List Doc) → IsKeyed pk ds → IsKeyed pk (remove_item x ds)
unfolding remove_item
remove_item-IsKeyed pk x [] h = tt
remove_item-IsKeyed pk x (d ∷ ds) ((k, e, f), h) = elim (Bool-cases (key_eq d x)) [
  | inl t ↦ rw t h
  | inr n ↦ rw n (
      (
        (k, e, remove_item-All (λ y. has_value pk k y ≡ false) x ds f),
        remove_item-IsKeyed pk x ds h,
      ))
]

remove_item-IsPaired :
    (pk ck owner : String) (x : Doc) (ds : List Doc)
    → IsPaired pk ck owner ds
    → IsPaired pk ck owner (remove_item x ds)
unfolding remove_item
remove_item-IsPaired pk ck owner x [] h = tt
remove_item-IsPaired pk ck owner x (d ∷ ds) ((c, f), h) = elim (Bool-cases (key_eq d x)) [
  | inl t ↦ rw t h
  | inr n ↦ rw n (
      (
        (c, remove_item-All (λ y. is_cell pk ck c.first_key c.second_key y ≡ false) x ds f),
        remove_item-IsPaired pk ck owner x ds h,
      ))
]

-- Deleting any document, also one without its keys, keeps a table well-formed.
pub delete_any-IsTable :
    (pk owner : String) (doc : Doc) (db : LocalDocDb)
    → IsTable pk db
    → IsTable pk (delete_document doc owner db).1
delete_any-IsTable pk owner doc db t =
    delete_document-keeps (IsTable pk) db doc owner
      (λ items. record {
        simple = t.simple;
        keyed = remove_items-keeps (IsKeyed pk) (remove_item-IsKeyed pk) items db.documents t.keyed;
        complete = remove_items-keeps (All _) (remove_item-All _) items db.documents t.complete;
      })
      t

pub delete_any-IsPairTable :
    (pk ck owner : String) (doc : Doc) (db : LocalDocDb)
    → IsPairTable pk ck owner db
    → IsPairTable pk ck owner (delete_document doc owner db).1
delete_any-IsPairTable pk ck owner doc db t =
    delete_document-keeps (IsPairTable pk ck owner) db doc owner
      (λ items. record {
        pairs = t.pairs;
        paired =
            remove_items-keeps (IsPaired pk ck owner) (remove_item-IsPaired pk ck owner) items
              db.documents t.paired;
      })
      t
