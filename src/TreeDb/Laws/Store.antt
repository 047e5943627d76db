-- ===== src/TreeDb/Laws/Store.antt =====
-- The helpers of src/youwol/backends/tree_db/utils.py on well-formed tables: what is read by key and
-- by query, and what is read after a write.
use py_youwol.Prelude.{
  ℕ, String, ◌≡◌, refl, ◌∙◌, sym, ap, true, false, Option, some, [], ◌∷◌, take, select, ◌==◌,
  if◌then◌else◌, All,
}
use mathlib.Core.Path.{subst}
use py_youwol.Prelude.Text.{has}
use py_youwol.Prelude.Dict.{get, put, get-put}
use py_youwol.Prelude.Exec.{Result, ok, err, http, lift}
use py_youwol.DocDb.Models.{Doc, field_of}
use py_youwol.DocDb.Parse.Laws.{IsPlain, parse-query_text}
use py_youwol.DocDb.Local.{LocalDocDb, get_document}
use py_youwol.DocDb.Write.{update_document, delete_document}
use py_youwol.DocDb.Table.Rows.{is_row, row, HasColumn}
use py_youwol.DocDb.Table.Reads.{lists, found, query-equals, get_document-row}
use py_youwol.DocDb.Table.Writes.{update_document-upsert, delete_document-select}
use py_youwol.DocDb.Table.Store.{get_document-update_document, get_document-delete_document}
use py_youwol.TreeDb.Models.{DocDbs}
use py_youwol.TreeDb.Access.{
  Table, items, folders, drives, deleted, table_of, with_table, look, on, public_owner, db_get,
  db_post, db_query, db_delete,
}
use py_youwol.TreeDb.Invariant.Tables.{pk_of, body_of, IsDoc, IsTree, IsTree-at}
use py_youwol.TreeDb.Laws.Blocks.{bind_of_ok, field_of-get}

-- The document of the public owner under the key `id`.
abbrev pub doc_at : Table → String → DocDbs → Option Doc
doc_at t id s = row (pk_of t) public_owner id (table_of t s).documents

pub get_document_lem :
    (t : Table) (id : String) (s : DocDbs)
    → IsTree s
    → get_document ((pk_of t, id) ∷ []) [] public_owner (table_of t s) ≡ found (doc_at t id s)
get_document_lem t id s h =
    get_document-row (pk_of t) id public_owner (table_of t s) (IsTree-at t h).table

pub db_get_lem :
    (t : Table) (id : String) (s : DocDbs)
    → IsTree s
    → db_get t (pk_of t) id s ≡ (found (doc_at t id s), s)
unfolding db_get look
db_get_lem t id s h = ap (λ r. (r, s)) (get_document_lem t id s h)

-- A query returns the documents of the public owner with the value, as far as the limit.
pub db_query_lem :
    (t : Table) (c v : String) (n : ℕ) (s : DocDbs)
    → IsTree s
    → IsPlain c
    → has b'=' c ≡ false
    → IsPlain v
    → lists (body_of t).columns c ≡ true
    → db_query t c v n s
      ≡ (ok (take n (select (is_row c public_owner v) (table_of t s).documents)), s)
unfolding db_query look
db_query_lem t c v n s h pc lacks pv l =
    let r = IsTree-at t h in
    ap (λ x. (x, s))
      (rw (parse-query_text c v pc pv lacks n)
        (query-equals (pk_of t) c v public_owner n (table_of t s) r.table (rw r.body l)))

owner-ne_pk : (t : Table) → ("owner" == pk_of t) ≡ false
owner-ne_pk items = refl
owner-ne_pk folders = refl
owner-ne_pk drives = refl
owner-ne_pk deleted = refl

pub group_of_doc : (t : Table) (d : Doc) → IsDoc t d → HasColumn d "group_id"
group_of_doc items d h = h.0.1.1.1.1.0
group_of_doc folders d h = h.0.1.1.1.0
group_of_doc drives d h = h.0.1.0
group_of_doc deleted d h = h.0.1.1.0

table_of-with_table : (t : Table) (db : _) (s : DocDbs) → table_of t (with_table t db s) ≡ db
table_of-with_table items db s = refl
table_of-with_table folders db s = refl
table_of-with_table drives db s = refl
table_of-with_table deleted db s = refl

abbrev pub posted : Table → Doc → DocDbs → DocDbs
posted t doc s = with_table t (update_document doc public_owner (table_of t s)).1 s

abbrev pub removed : Table → Doc → DocDbs → DocDbs
removed t doc s = with_table t (delete_document doc public_owner (table_of t s)).1 s

module _ (t : Table) (doc : Doc) (k : String) (s : DocDbs) (h : IsTree s)
    (key : get (pk_of t) doc ≡ some k) where
  with_owner : get (pk_of t) (put "owner" public_owner doc) ≡ some k
  with_owner = get-put (pk_of t) "owner" public_owner doc ∙ rw (owner-ne_pk t) key

  -- A write of a document that may stand in the table succeeds.
  pub db_post_lem : IsDoc t doc → db_post t doc s ≡ (ok tt, posted t doc s)
  unfolding db_post on lift
  db_post_lem d =
      let (g, e) = group_of_doc t doc d in
      bind_of_ok (lift (field_of doc "group_id")) (λ _. on t (update_document doc public_owner))
        {s = s} (ap (λ r. (r, s)) (field_of-get doc "group_id" g e))
      ∙ ap (λ (x : Result (Unit {0}) × LocalDocDb). (x.0, posted t doc s))
          (update_document-upsert (pk_of t) k public_owner doc (table_of t s) (IsTree-at t h).table
            with_owner)

  pub db_get-posted :
      (j : String)
      → IsDoc t doc
      → get_document ((pk_of t, j) ∷ []) [] public_owner (table_of t (posted t doc s))
        ≡ (if k == j then ok (put "owner" public_owner doc) else found (doc_at t j s))
  db_get-posted j d =
      let r = IsTree-at t h in
      rw (table_of-with_table t (update_document doc public_owner (table_of t s)).1 s) (
        get_document-update_document (pk_of t) k public_owner doc (table_of t s) r.table with_owner
          public_owner j (subst (λ b. All (HasColumn doc) b.columns) (sym r.body) d.0)
        ∙ ap (λ x. if k == j then ok (put "owner" public_owner doc) else x)
            (get_document-row (pk_of t) j public_owner (table_of t s) r.table))

  pub db_delete_lem : db_delete t doc s ≡ (ok tt, removed t doc s)
  unfolding db_delete on
  db_delete_lem =
      ap (λ (x : Result (Unit {0}) × LocalDocDb). (x.0, removed t doc s))
        (delete_document-select (pk_of t) k public_owner doc (table_of t s) (IsTree-at t h).table
          key)

  pub db_get-removed :
      (j : String)
      → get_document ((pk_of t, j) ∷ []) [] public_owner (table_of t (removed t doc s))
        ≡ (if k == j then err (http 404) else found (doc_at t j s))
  db_get-removed j =
      let r = IsTree-at t h in
      rw (table_of-with_table t (delete_document doc public_owner (table_of t s)).1 s) (
        get_document-delete_document (pk_of t) k public_owner doc (table_of t s) r.table key
          public_owner j
        ∙ ap (λ x. if k == j then err (http 404) else x)
            (get_document-row (pk_of t) j public_owner (table_of t s) r.table))
