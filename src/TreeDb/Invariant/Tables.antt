-- ===== src/TreeDb/Invariant/Tables.antt =====
-- What the tables of src/youwol/utils/http_clients/tree_db_backend/models.py hold.
use py_youwol.Prelude.{
  String, ◌≡◌, ◌∙◌, inl, inr, Option-cases, eq_iff, true, Option, none, some, List, [], ◌∷◌, arith,
  sym, All,
}
use mathlib.Core.Path.{subst}
use py_youwol.Prelude.Dict.{get, put, get-put}
use py_youwol.Prelude.Exec.{ok}
use py_youwol.DocDb.Models.{Doc, TableBody}
use py_youwol.DocDb.Local.{LocalDocDb, get_document}
use py_youwol.DocDb.Write.{update_document, delete_document}
use py_youwol.DocDb.Table.Rows.{has_value, is_row, HasColumn}
use py_youwol.DocDb.Table.Reads.{IsTable, IsComplete, found, get_document-row}
use py_youwol.DocDb.Table.Writes.{update_document-upsert, delete_document-select}
use py_youwol.DocDb.Table.Store.{update_document-IsTable, delete_document-IsTable}
use py_youwol.TreeDb.Models.{DocDbs, files_table, folders_table, drives_table, deleted_table}
use py_youwol.TreeDb.Access.{
  Table, items, folders, drives, deleted, table_of, with_table, public_owner,
}
use py_youwol.TreeDb.Invariant.Every.{upsert-All, select-All, first-All}

abbrev pub pk_of : Table → String
pk_of items = "item_id"
pk_of folders = "folder_id"
pk_of drives = "drive_id"
pk_of deleted = "deleted_id"

abbrev pub body_of : Table → TableBody
body_of items = files_table
body_of folders = folders_table
body_of drives = drives_table
body_of deleted = deleted_table

-- `move` tells folders from items by the column `parent_folder_id`, which no item has.
abbrev pub IsApart : Table → Doc → Type 0
IsApart items d = get "parent_folder_id" d ≡ none
IsApart _ d = Unit

-- A document that may stand in the table.
abbrev pub IsDoc : Table → Doc → Type 0
IsDoc t d = All (HasColumn d) (body_of t).columns × IsApart t d

pub record IsTableOf (t : Table) (db : LocalDocDb) : Type 0 where
  pub body : db.table_body ≡ body_of t
  pub table : IsTable (pk_of t) db
  pub apart : All (IsApart t) db.documents

-- The four tables are well-formed.
pub record IsTree (dbs : DocDbs) : Type 0 where
  pub of_items : IsTableOf items dbs.items_db
  pub of_folders : IsTableOf folders dbs.folders_db
  pub of_drives : IsTableOf drives dbs.drives_db
  pub of_deleted : IsTableOf deleted dbs.deleted_db

pub IsTree-at : (t : Table) {dbs : DocDbs} → IsTree dbs → IsTableOf t (table_of t dbs)
IsTree-at items h = h.of_items
IsTree-at folders h = h.of_folders
IsTree-at drives h = h.of_drives
IsTree-at deleted h = h.of_deleted

pub with_table-IsTree :
    (t : Table) (db : LocalDocDb) {dbs : DocDbs}
    → IsTableOf t db
    → IsTree dbs
    → IsTree (with_table t db dbs)
with_table-IsTree items db n h = record {
  of_items = n;
  of_folders = h.of_folders;
  of_drives = h.of_drives;
  of_deleted = h.of_deleted;
}
with_table-IsTree folders db n h = record {
  of_items = h.of_items;
  of_folders = n;
  of_drives = h.of_drives;
  of_deleted = h.of_deleted;
}
with_table-IsTree drives db n h = record {
  of_items = h.of_items;
  of_folders = h.of_folders;
  of_drives = n;
  of_deleted = h.of_deleted;
}
with_table-IsTree deleted db n h = record {
  of_items = h.of_items;
  of_folders = h.of_folders;
  of_drives = h.of_drives;
  of_deleted = n;
}

-- Every document that may stand in the table has a key.
pub key_of_doc : (t : Table) (d : Doc) → IsDoc t d → HasColumn d (pk_of t)
key_of_doc items d h = h.0.0
key_of_doc folders d h = h.0.0
key_of_doc drives d h = h.0.0
key_of_doc deleted d h = h.0.0

get-put_owner :
    (t : Table) (owner : String) (d : Doc) → get (pk_of t) (put "owner" owner d) ≡ get (pk_of t) d
get-put_owner items owner d = get-put "item_id" "owner" owner d
get-put_owner folders owner d = get-put "folder_id" "owner" owner d
get-put_owner drives owner d = get-put "drive_id" "owner" owner d
get-put_owner deleted owner d = get-put "deleted_id" "owner" owner d

put_owner-IsApart :
    (t : Table) (owner : String) (d : Doc) → IsApart t d → IsApart t (put "owner" owner d)
put_owner-IsApart items owner d h = get-put "parent_folder_id" "owner" owner d ∙ h
put_owner-IsApart folders owner d h = tt
put_owner-IsApart drives owner d h = tt
put_owner-IsApart deleted owner d h = tt

-- What the documents of a table are, all at once.
docs-IsDoc :
    (t : Table) (ds : List Doc)
    → IsComplete (body_of t).columns ds
    → All (IsApart t) ds
    → All (IsDoc t) ds
docs-IsDoc t [] h a = tt
docs-IsDoc t (d ∷ ds) h a = ((h.0.1, a.0), docs-IsDoc t ds h.1 a.1)

pub IsTableOf-docs : (t : Table) {db : LocalDocDb} → IsTableOf t db → All (IsDoc t) db.documents
IsTableOf-docs t {db} h =
    docs-IsDoc t db.documents
      (subst (λ b. IsComplete b.columns db.documents) h.body h.table.complete) h.apart

-- A write of a document that may stand in the table keeps the table.
pub update_document-IsTableOf :
    (t : Table) (doc : Doc) {db : LocalDocDb}
    → IsDoc t doc
    → IsTableOf t db
    → IsTableOf t (update_document doc public_owner db).1
update_document-IsTableOf t doc {db} d h =
    let (k, e) = key_of_doc t doc d in
    let key = get-put_owner t public_owner doc ∙ e in
    let same = update_document-upsert (pk_of t) k public_owner doc db h.table key in
    record {
      body = rw same h.body;
      table =
          update_document-IsTable (pk_of t) k public_owner doc db h.table key
            (subst (λ b. All (HasColumn doc) b.columns) (sym h.body) d.0);
      apart = rw same (
          upsert-All (IsApart t) (has_value (pk_of t) k) (put "owner" public_owner doc) db.documents
            (put_owner-IsApart t public_owner doc d.1) h.apart);
    }

-- So does a deletion by a document with a key.
pub delete_document-IsTableOf :
    (t : Table) (k : String) (doc : Doc) {db : LocalDocDb}
    → get (pk_of t) doc ≡ some k
    → IsTableOf t db
    → IsTableOf t (delete_document doc public_owner db).1
delete_document-IsTableOf t k doc {db} key h =
    let same = delete_document-select (pk_of t) k public_owner doc db h.table key in
    record {
      body = rw same h.body;
      table = delete_document-IsTable (pk_of t) k public_owner doc db h.table key;
      apart = rw same (select-All (IsApart t) _ db.documents h.apart);
    }

found-eq-ok : (o : Option Doc) (d : Doc) → found o ≡ ok d → o ≡ some d
found-eq-ok none d e = cc
found-eq-ok (some x) d e = cc

get_of_row : (pk owner k : String) (d : Doc) → is_row pk owner k d ≡ true → get pk d ≡ some k
get_of_row pk owner k d h = elim (Option-cases (get pk d)) [
  | inl e ↦ ground arith
  | inr (w, e) ↦ ground (arith, eq_iff w k)
]

-- A read by key returns a document that may stand in the table, and has that key.
pub get_document-IsDoc :
    (t : Table) (id : String) {db : LocalDocDb} (d : Doc)
    → IsTableOf t db
    → get_document ((pk_of t, id) ∷ []) [] public_owner db ≡ ok d
    → IsDoc t d × (get (pk_of t) d ≡ some id)
get_document-IsDoc t id {db} d h e =
    let there = found-eq-ok _ d (sym (get_document-row (pk_of t) id public_owner db h.table) ∙ e) in
    let (is_doc, is_key) =
      first-All (IsDoc t) (is_row (pk_of t) public_owner id) db.documents d (IsTableOf-docs t h)
        there in
    (is_doc, get_of_row (pk_of t) public_owner id d is_key)
