-- ===== src/DocDb/Pairs/Methods.antt =====
-- The methods of local_docdb.py on a well-formed table of pairs.
use py_youwol.Prelude.{
  ℕ, ◌≤◌, String, ◌≡◌, refl, ◌∙◌, ap, inl, inr, Bool-cases, not, Option, none, some, List, [], ◌∷◌,
  arith, eq_refl, select, take, All,
}
use py_youwol.Prelude.Dict.{get, put, get-put}
use py_youwol.Prelude.Exec.{ok}
use py_youwol.DocDb.Models.{Doc, TableBody, QueryBody, is_matching}
use py_youwol.DocDb.Local.{
  LocalDocDb, primary_key_id, query, matches_all, owner_clause, equals, order_docs, with_keys,
  sort_keyed, insert_sorted,
}
use py_youwol.DocDb.Write.{
  same_key, count_same, replace_first, write, place, update_document, to_remove, delete_document,
}
use py_youwol.DocDb.Table.Rows.{upsert}
use py_youwol.DocDb.Table.Reads.{filter_docs-select}
use py_youwol.DocDb.Table.Writes.{remove_items-select}
use py_youwol.DocDb.Pairs.Cells.{
  is_cell, IsFreeCell, IsCell, IsPaired, cell, listed, free_of_cell, select-cell, upsert-IsPaired,
  select-IsPaired,
}

-- A table with the partition key `pk` and the clustering column `ck`, in ascending order.
pub record IsPairs (table : TableBody) (pk ck : String) : Type 0 where
  pub partition : table.partition_key ≡ pk ∷ []
  pub clustering : table.clustering_columns ≡ ck ∷ []
  pub order : table.clustering_order ≡ record { name = ck; order = "ASC" } ∷ []

pub record IsPairTable (pk ck owner : String) (db : LocalDocDb) : Type 0 where
  pub pairs : IsPairs db.table_body pk ck
  pub paired : IsPaired pk ck owner db.documents

-- At most `n` documents under the two keys.
abbrev pub cell_query : String → String → String → String → ℕ → QueryBody
cell_query pk ck a g n = record {
  max_results = n;
  select_clauses = [];
  query = record { where_clause = equals (pk, a) ∷ equals (ck, g) ∷ []; ordering_clause = [] };
}

take-listed : (o : Option Doc) → take 1 (listed o) ≡ listed o
take-listed none = refl
take-listed (some d) = refl

module _ (pk ck owner : String) where
  matches-cell :
      (a g : String) (d : Doc)
      → IsCell pk ck owner d
      → matches_all (owner_clause owner ∷ equals (pk, a) ∷ equals (ck, g) ∷ []) d
        ≡ ok (is_cell pk ck a g d)
  unfolding matches_all is_matching
  matches-cell a g d c = ground (arith, c.first_get, c.second_get, c.owner_get, eq_refl owner)

  matches-cells :
      (a g : String) (ds : List Doc)
      → IsPaired pk ck owner ds
      → All
          (λ d.
            matches_all (owner_clause owner ∷ equals (pk, a) ∷ equals (ck, g) ∷ []) d
            ≡ ok (is_cell pk ck a g d))
          ds
  matches-cells a g [] h = tt
  matches-cells a g (d ∷ ds) h = (matches-cell a g d h.0.0, matches-cells a g ds h.1)

  -- Sorting leaves at most one document as it is.
  order_docs-listed :
      (a g : String) (ds : List Doc)
      → IsPaired pk ck owner ds
      → order_docs (record { name = ck; order = "ASC" } ∷ []) [] (listed (cell pk ck a g ds))
        ≡ ok (listed (cell pk ck a g ds))
  unfolding order_docs with_keys sort_keyed insert_sorted
  order_docs-listed a g [] h = refl
  order_docs-listed a g (d ∷ ds) h = elim (Bool-cases (is_cell pk ck a g d)) [
    | inl t ↦ rw t (ground (arith, h.0.0.second_get))
    | inr n ↦ rw n (order_docs-listed a g ds h.1)
  ]

  -- A query for the two keys returns the document that stands under them, if any.
  pub query-cell :
      (a g : String) (db : LocalDocDb)
      → IsPairTable pk ck owner db
      → query (cell_query pk ck a g 1) owner db ≡ ok (listed (cell pk ck a g db.documents))
  unfolding query
  query-cell a g db t =
      rw
        (
          filter_docs-select _ (is_cell pk ck a g) db.documents
              (matches-cells a g db.documents t.paired),
          t.pairs.order,
          select-cell pk ck owner a g db.documents t.paired,
          order_docs-listed a g db.documents t.paired,
        )
        (ap ok (take-listed (cell pk ck a g db.documents)))

  module _ (table : TableBody) (pairs : IsPairs table pk ck) (a g : String) (x : Doc)
      (ea : get pk x ≡ some a) (eg : get ck x ≡ some g) where
    same_key-cell : (d : Doc) → IsCell pk ck owner d → same_key table x d ≡ ok (is_cell pk ck a g d)
    unfolding same_key primary_key_id
    same_key-cell d c =
        rw (pairs.partition, pairs.clustering)
          (ground (arith, c.first_get, c.second_get, eq_refl pk, eq_refl ck))

    count_of_free :
        (ds : List Doc)
        → IsPaired pk ck owner ds
        → IsFreeCell pk ck a g ds
        → count_same table x ds ≡ ok 0
    unfolding count_same
    count_of_free [] h f = refl
    count_of_free (d ∷ ds) h f = ground (arith, same_key-cell d h.0.0, count_of_free ds h.1)

    count_of_paired :
        (ds : List Doc)
        → IsPaired pk ck owner ds
        → (n : ℕ) × (count_same table x ds ≡ ok n) × (n ≤ 1)
    unfolding count_same
    count_of_paired [] h = (0, refl, omega arith)
    count_of_paired (d ∷ ds) h = elim (Bool-cases (is_cell pk ck a g d)) [
      | inl t ↦
          let f = free_of_cell pk ck d h.0.0 a g ds t h.0.1 in
          (1, ground (arith, same_key-cell d h.0.0, count_of_free ds h.1 f), omega arith)
      | inr n ↦
          let (m, e, le) = count_of_paired ds h.1 in (m, ground (arith, same_key-cell d h.0.0), le)
    ]

    place-upsert_cell :
        (ds : List Doc)
        → IsPaired pk ck owner ds
        → (n : ℕ) → count_same table x ds ≡ ok n
        → place table x ds n ≡ upsert (is_cell pk ck a g) x ds
    unfolding count_same replace_first upsert
    place-upsert_cell [] h n e = ground arith
    place-upsert_cell (d ∷ ds) h n e = elim (Bool-cases (is_cell pk ck a g d)) [
      | inl t ↦
          let f = free_of_cell pk ck d h.0.0 a g ds t h.0.1 in
          rw t (ground (arith, same_key-cell d h.0.0, count_of_free ds h.1 f))
      | inr ne ↦ rw ne (ground (arith, same_key-cell d h.0.0, place-upsert_cell ds h.1 n))
    ]

    to_remove-cell :
        (ds : List Doc)
        → IsPaired pk ck owner ds
        → All (λ d. to_remove table x owner d ≡ ok (is_cell pk ck a g d)) ds
    to_remove-cell [] h = tt
    to_remove-cell (d ∷ ds) h = (
      ground (arith, same_key-cell d h.0.0, h.0.0.owner_get, eq_refl owner),
      to_remove-cell ds h.1,
    )

  module _ (a g : String) (doc : Doc) (db : LocalDocDb) (t : IsPairTable pk ck owner db) where
    -- A write of the owner succeeds, and replaces the document of the two keys or comes last.
    pub update_document-cell :
        get pk (put "owner" owner doc) ≡ some a
        → get ck (put "owner" owner doc) ≡ some g
        → update_document doc owner db
          ≡ (ok tt, write (upsert (is_cell pk ck a g) (put "owner" owner doc) db.documents) db)
    unfolding update_document
    update_document-cell ea eg =
        let x = put "owner" owner doc in
        let (n, e, le) = count_of_paired db.table_body t.pairs a g x ea eg db.documents t.paired in
        rw e (rw (place-upsert_cell db.table_body t.pairs a g x ea eg db.documents t.paired n e))

    pub update_document-IsPairTable :
        get pk (put "owner" owner doc) ≡ some a
        → get ck (put "owner" owner doc) ≡ some g
        → IsPairTable pk ck owner (update_document doc owner db).1
    update_document-IsPairTable ea eg = rw (update_document-cell ea eg) (record {
      pairs = t.pairs;
      paired =
          upsert-IsPaired pk ck owner a g (put "owner" owner doc) ea eg
            (get-put "owner" "owner" owner doc ∙ ground arith) db.documents t.paired;
    })

    -- A deletion by the two keys removes the document under them, nothing else.
    pub delete_document-cell :
        get pk doc ≡ some a
        → get ck doc ≡ some g
        → delete_document doc owner db
          ≡ (ok tt, write (select (λ d. not (is_cell pk ck a g d)) db.documents) db)
    unfolding delete_document
    delete_document-cell ea eg =
        rw
          (filter_docs-select (to_remove db.table_body doc owner) (is_cell pk ck a g) db.documents
            (to_remove-cell db.table_body t.pairs a g doc ea eg db.documents t.paired))
          (rw (remove_items-select (is_cell pk ck a g) db.documents))

    pub delete_document-IsPairTable :
        get pk doc ≡ some a
        → get ck doc ≡ some g
        → IsPairTable pk ck owner (delete_document doc owner db).1
    delete_document-IsPairTable ea eg = rw (delete_document-cell ea eg) (record {
      pairs = t.pairs;
      paired = select-IsPaired pk ck owner (λ d. not (is_cell pk ck a g d)) db.documents t.paired;
    })
