-- ===== src/TreeDb/Invariant/Rules.antt =====
-- The helpers of tree_db/utils.py keep the tables, as rules for blocks.
use py_youwol.Prelude.{String, ◌≡◌, some, List, [], ℕ, All}
use py_youwol.Prelude.Dict.{get}
use py_youwol.Prelude.Exec.{Result, ok, then_ok-eq-ok, lift}
use py_youwol.Prelude.Exec.Keeps.{Keeps, Keeps-lift, Keeps-bind}
use py_youwol.DocDb.Models.{Doc, field_of}
use py_youwol.DocDb.Parse.{parse}
use py_youwol.DocDb.Parse.Laws.{query_text}
use py_youwol.DocDb.Local.{LocalDocDb}
use py_youwol.TreeDb.Models.{DocDbs}
use py_youwol.TreeDb.Access.{
  Table, table_of, look, public_owner, db_get, db_post, db_query, db_delete,
}
use py_youwol.TreeDb.Invariant.Every.{query-All}
use py_youwol.TreeDb.Invariant.Tables.{
  pk_of, IsDoc, IsTree, IsTableOf, IsTree-at, with_table-IsTree, update_document-IsTableOf,
  delete_document-IsTableOf, get_document-IsDoc, IsTableOf-docs,
}

look-Keeps : {A : Type 0} (t : Table) (f : LocalDocDb → Result A) → Keeps IsTree (look t f)
unfolding look
look-Keeps t f = record { at = λ s h. h }

pub db_get-Keeps : (t : Table) (pk id : String) → Keeps IsTree (db_get t pk id)
unfolding db_get
db_get-Keeps t pk id = record { at = λ s h. h }

pub db_query-Keeps : (t : Table) (key v : String) (n : ℕ) → Keeps IsTree (db_query t key v n)
unfolding db_query
db_query-Keeps t key v n = record { at = λ s h. h }

pub db_post-Keeps : (t : Table) (doc : Doc) → IsDoc t doc → Keeps IsTree (db_post t doc)
unfolding db_post
db_post-Keeps t doc d = Keeps-bind (lift (field_of doc "group_id")) _ (Keeps-lift _) λ g. record {
  at = λ s h. with_table-IsTree t _ (update_document-IsTableOf t doc d (IsTree-at t h)) h;
}

pub db_delete-Keeps :
    (t : Table) (k : String) (doc : Doc)
    → get (pk_of t) doc ≡ some k
    → Keeps IsTree (db_delete t doc)
unfolding db_delete
db_delete-Keeps t k doc key = record {
  at = λ s h. with_table-IsTree t _ (delete_document-IsTableOf t k doc key (IsTree-at t h)) h;
}

-- What a read by key returns, and what a query returns.
pub db_get-IsDoc :
    (t : Table) (id : String) (s : DocDbs)
    → IsTree s
    → (d : Doc) → (db_get t (pk_of t) id s).0 ≡ ok d
    → IsDoc t d × (get (pk_of t) d ≡ some id)
unfolding db_get
db_get-IsDoc t id s h d e = get_document-IsDoc t id d (IsTree-at t h) e

clustering_none :
    (t : Table) {db : LocalDocDb} → IsTableOf t db → db.table_body.clustering_order ≡ []
clustering_none t h = h.table.simple.order

pub db_query-IsDoc :
    (t : Table) (key v : String) (n : ℕ) (s : DocDbs)
    → IsTree s
    → (ds : List Doc) → (db_query t key v n s).0 ≡ ok ds
    → All (IsDoc t) ds
unfolding db_query
db_query-IsDoc t key v n s h ds e =
    let (body, e₁, e₂) = then_ok-eq-ok (parse (query_text key v n)) _ e in
    query-All (IsDoc t) body public_owner (table_of t s) ds (clustering_none t (IsTree-at t h))
      (IsTableOf-docs t (IsTree-at t h)) e₂
