-- ===== src/DocDb/Table/Reads.antt =====
-- The reading methods of local_docdb.py on a well-formed table: filters over the documents.
use py_youwol.Prelude.{
  ℕ, String, ◌≡◌, refl, inl, inr, Bool-cases, Bool, true, false, Option, none, some, List, [], ◌∷◌,
  arith, ◌==◌, eq_iff, eq_refl, if◌then◌else◌, select, first, take, All,
}
use mathlib.Core.Path.{subst}
use py_youwol.Prelude.Exec.{Result, ok, err, http}
use py_youwol.DocDb.Models.{Doc, TableBody, is_matching}
use py_youwol.DocDb.Parse.Laws.{equals_query}
use py_youwol.DocDb.Local.{
  LocalDocDb, filter_docs, matches_all, owner_clause, equals, query, get_document, head_or_404,
}
use py_youwol.DocDb.Table.Rows.{has_value, is_row, HasColumn, IsKeyed, row}

-- A table that is found by one column `pk` and lists its documents as they were written.
pub record IsSimple (table : TableBody) (pk : String) : Type 0 where
  pub partition : table.partition_key ≡ pk ∷ []
  pub clustering : table.clustering_columns ≡ []
  pub order : table.clustering_order ≡ []

-- The documents have the owner, and every column of the table.
abbrev pub IsComplete : List String → List Doc → Type 0
IsComplete columns = All (λ d. HasColumn d "owner" × All (HasColumn d) columns)

pub record IsTable (pk : String) (db : LocalDocDb) : Type 0 where
  pub simple : IsSimple db.table_body pk
  pub keyed : IsKeyed pk db.documents
  pub complete : IsComplete db.table_body.columns db.documents

is_matching-equals :
    (c v : String) (d : Doc) → HasColumn d c → is_matching (equals (c, v)) d ≡ ok (has_value c v d)
unfolding is_matching
is_matching-equals c v d (w, e) = ground arith

matches-owner :
    (owner c v : String) (d : Doc)
    → HasColumn d "owner"
    → HasColumn d c
    → matches_all (owner_clause owner ∷ equals (c, v) ∷ []) d ≡ ok (is_row c owner v d)
unfolding matches_all is_matching
matches-owner owner c v d (o, ho) (w, hw) = ground arith

pub filter_docs-select :
    (p : Doc → Result Bool) (q : Doc → Bool) (ds : List Doc)
    → All (λ d. p d ≡ ok (q d)) ds
    → filter_docs p ds ≡ ok (select q ds)
unfolding filter_docs
filter_docs-select p q [] h = refl
filter_docs-select p q (d ∷ ds) h = rw (h.0, filter_docs-select p q ds h.1)

abbrev pub lists : List String → String → Bool
lists [] c = false
lists (x ∷ xs) c = if x == c then true else lists xs c

column_of :
    (d : Doc) (columns : List String) (c : String)
    → lists columns c ≡ true
    → All (HasColumn d) columns
    → HasColumn d c
column_of d [] c l h = cc
column_of d (x ∷ xs) c l h = elim (Bool-cases (x == c)) [
  | inl t ↦ subst (HasColumn d) ((eq_iff x c).0 t) h.0
  | inr n ↦ column_of d xs c (rw n at l) h.1
]

matches_of_complete :
    (owner c v : String) (columns : List String) (ds : List Doc)
    → lists columns c ≡ true
    → IsComplete columns ds
    → All
        (λ d. matches_all (owner_clause owner ∷ equals (c, v) ∷ []) d ≡ ok (is_row c owner v d))
        ds
matches_of_complete owner c v columns [] l h = tt
matches_of_complete owner c v columns (d ∷ ds) l h = (
  matches-owner owner c v d h.0.0 (column_of d columns c l h.0.1),
  matches_of_complete owner c v columns ds l h.1,
)

matches_of_keyed :
    (owner pk v : String) (columns : List String) (ds : List Doc)
    → IsKeyed pk ds
    → IsComplete columns ds
    → All
        (λ d. matches_all (owner_clause owner ∷ equals (pk, v) ∷ []) d ≡ ok (is_row pk owner v d))
        ds
matches_of_keyed owner pk v columns [] k h = tt
matches_of_keyed owner pk v columns (d ∷ ds) k h = (
  matches-owner owner pk v d h.0.0 (k.0.0, k.0.1),
  matches_of_keyed owner pk v columns ds k.1 h.1,
)

query_of_matches :
    (c v owner : String) (n : ℕ) (db : LocalDocDb)
    → db.table_body.clustering_order ≡ []
    → All
        (λ d. matches_all (owner_clause owner ∷ equals (c, v) ∷ []) d ≡ ok (is_row c owner v d))
        db.documents
    → query (equals_query c v n) owner db ≡ ok (take n (select (is_row c owner v) db.documents))
unfolding query
query_of_matches c v owner n db o m =
    rw (filter_docs-select _ (is_row c owner v) db.documents m) (rw o)

-- On a well-formed table with one key and no clustering columns, a query for one value of a column of
-- the table returns the documents of the owner that hold it, in their order, as far as the limit.
pub query-equals :
    (pk c v owner : String) (n : ℕ) (db : LocalDocDb)
    → IsTable pk db
    → lists db.table_body.columns c ≡ true
    → query (equals_query c v n) owner db ≡ ok (take n (select (is_row c owner v) db.documents))
query-equals pk c v owner n db t l =
    query_of_matches c v owner n db t.simple.order
      (matches_of_complete owner c v db.table_body.columns db.documents l t.complete)

abbrev pub found : Option Doc → Result Doc
found none = err (http 404)
found (some d) = ok d

head-take :
    (p : Doc → Bool) (ds : List Doc) → head_or_404 (take 1 (select p ds)) ≡ found (first p ds)
head-take p [] = refl
head-take p (d ∷ ds) = ground (arith, head-take p ds)

-- A read by key returns the document of the owner with that key, or a 404.
pub get_document-row :
    (pk k owner : String) (db : LocalDocDb)
    → IsTable pk db
    → get_document ((pk, k) ∷ []) [] owner db ≡ found (row pk owner k db.documents)
unfolding get_document
get_document-row pk k owner db t =
    let m = matches_of_keyed owner pk k db.table_body.columns db.documents t.keyed t.complete in
    rw t.simple.partition (
      ground (
        arith,
        eq_refl pk,
        query_of_matches pk k owner 1 db t.simple.order m,
        head-take (is_row pk owner k) db.documents,
      ))
