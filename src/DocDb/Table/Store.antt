-- ===== src/DocDb/Table/Store.antt =====
-- The table as a store: what a read returns after a write, and what every write keeps.
use py_youwol.Prelude.{
  String, ◌≡◌, ◌∙◌, ap, inl, inr, Bool-cases, Bool, not, ◌&&◌, some, List, [], ◌∷◌, arith, ◌==◌,
  if◌then◌else◌, select, All,
}
use py_youwol.Prelude.Dict.{get, put, get-put}
use py_youwol.Prelude.Exec.{ok, err, http}
use py_youwol.DocDb.Models.{Doc}
use py_youwol.DocDb.Local.{LocalDocDb, get_document}
use py_youwol.DocDb.Write.{update_document, delete_document}
use py_youwol.DocDb.Table.Rows.{
  has_value, is_row, HasColumn, upsert, upsert-IsKeyed, row-upsert, select-IsKeyed, row-delete,
}
use py_youwol.DocDb.Table.Reads.{IsTable, IsComplete, found, get_document-row}
use py_youwol.DocDb.Table.Writes.{update_document-upsert, delete_document-select}

-- A document that can be written to the table: it has a key and every column.
abbrev pub IsRecord : LocalDocDb → String → Doc → Type 0
IsRecord db k doc = All (HasColumn doc) db.table_body.columns

pub HasColumn-put : (doc : Doc) (j v c : String) → HasColumn doc c → HasColumn (put j v doc) c
HasColumn-put doc j v c (w, e) = elim (Bool-cases (j == c)) [
  | inl t ↦ (v, get-put c j v doc ∙ ground arith)
  | inr n ↦ (w, get-put c j v doc ∙ ground arith)
]

pub All-HasColumn-put :
    (doc : Doc) (j v : String) (cs : List String)
    → All (HasColumn doc) cs
    → All (HasColumn (put j v doc)) cs
All-HasColumn-put doc j v [] h = tt
All-HasColumn-put doc j v (c ∷ cs) h =
    (HasColumn-put doc j v c h.0, All-HasColumn-put doc j v cs h.1)

upsert-IsComplete :
    (columns : List String) (p : Doc → Bool) (x : Doc) (ds : List Doc)
    → HasColumn x "owner" × All (HasColumn x) columns
    → IsComplete columns ds
    → IsComplete columns (upsert p x ds)
unfolding upsert
upsert-IsComplete columns p x [] hx h = (hx, tt)
upsert-IsComplete columns p x (d ∷ ds) hx h = elim (Bool-cases (p d)) [
  | inl t ↦ rw t ((hx, h.1))
  | inr n ↦ rw n ((h.0, upsert-IsComplete columns p x ds hx h.1))
]

select-IsComplete :
    (columns : List String) (p : Doc → Bool) (ds : List Doc)
    → IsComplete columns ds
    → IsComplete columns (select p ds)
select-IsComplete columns p [] h = tt
select-IsComplete columns p (d ∷ ds) h = elim (Bool-cases (p d)) [
  | inl t ↦ rw t ((h.0, select-IsComplete columns p ds h.1))
  | inr n ↦ rw n (select-IsComplete columns p ds h.1)
]

module _ (pk k owner : String) (doc : Doc) (db : LocalDocDb) (t : IsTable pk db) where
  module _ (key : get pk (put "owner" owner doc) ≡ some k) where
    -- Writing a document that has every column keeps the table well-formed.
    pub update_document-IsTable :
        All (HasColumn doc) db.table_body.columns → IsTable pk (update_document doc owner db).1
    update_document-IsTable h = rw (update_document-upsert pk k owner doc db t key) (record {
      simple = t.simple;
      keyed = upsert-IsKeyed pk k (put "owner" owner doc) key db.documents t.keyed;
      complete =
          upsert-IsComplete db.table_body.columns (has_value pk k) (put "owner" owner doc)
            db.documents
            (
              (owner, get-put "owner" "owner" owner doc ∙ ground arith),
              All-HasColumn-put doc "owner" owner db.table_body.columns h,
            )
            t.complete;
    })

    -- After a write, its owner reads the document under its key; no other owner reads anything
    -- under that key any more; every other key reads as before.
    pub get_document-update_document :
        (o j : String)
        → All (HasColumn doc) db.table_body.columns
        → get_document ((pk, j) ∷ []) [] o (update_document doc owner db).1 ≡ (
            if k == j
            then (if owner == o then ok (put "owner" owner doc) else err (http 404))
            else get_document ((pk, j) ∷ []) [] o db)
    get_document-update_document o j h =
        get_document-row pk j o (update_document doc owner db).1 (update_document-IsTable h)
        ∙ rw (update_document-upsert pk k owner doc db t key, get_document-row pk j o db t)
            (ap found (row-upsert pk k (put "owner" owner doc) key o j db.documents t.keyed)
              ∙ ground (arith, get-put "owner" "owner" owner doc))

  module _ (key : get pk doc ≡ some k) where
    -- Deleting keeps the table well-formed.
    pub delete_document-IsTable : IsTable pk (delete_document doc owner db).1
    delete_document-IsTable = rw (delete_document-select pk k owner doc db t key) (record {
      simple = t.simple;
      keyed = select-IsKeyed pk (λ d. not (is_row pk owner k d)) db.documents t.keyed;
      complete =
          select-IsComplete db.table_body.columns (λ d. not (is_row pk owner k d)) db.documents
            t.complete;
    })

    -- After a deletion its owner finds nothing under the key; every other read is as before.
    pub get_document-delete_document :
        (o j : String)
        → get_document ((pk, j) ∷ []) [] o (delete_document doc owner db).1
          ≡ (if owner == o && k == j then err (http 404) else get_document ((pk, j) ∷ []) [] o db)
    get_document-delete_document o j =
        get_document-row pk j o (delete_document doc owner db).1 delete_document-IsTable
        ∙ rw (delete_document-select pk k owner doc db t key, get_document-row pk j o db t)
            (ap found (row-delete pk owner k o j db.documents) ∙ ground arith)
