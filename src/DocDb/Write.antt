-- ===== src/DocDb/Write.antt =====
-- src/youwol/utils/clients/docdb/local_docdb.py: the writing methods of the table.
use py_youwol.Prelude.{ℕ, suc, String, Bool, false, List, [], ◌∷◌, ◌++◌, eqb, ◌==◌, if◌then◌else◌}
use py_youwol.Prelude.Dict.{put}
use py_youwol.Prelude.Exec.{Result, ok, err, then_ok, Exec}
use py_youwol.DocDb.Models.{Doc, field_of, TableBody}
use py_youwol.DocDb.Local.{LocalDocDb, primary_key_id, key_eq, filter_docs}

-- `self.primary_key_id(d) == self.primary_key_id(doc)`
unfoldable pub same_key : TableBody → Doc → Doc → Result Bool
unfolding primary_key_id
same_key table doc d =
    then_ok (primary_key_id table d)
      (λ k. then_ok (primary_key_id table doc) (λ key. ok (key_eq k key)))

-- `len(index)`
unfoldable pub count_same : TableBody → Doc → List Doc → Result ℕ
unfolding same_key
count_same table doc [] = ok 0
count_same table doc (d ∷ ds) =
    then_ok (same_key table doc d)
      (λ m. then_ok (count_same table doc ds) (λ n. ok (if m then suc n else n)))

abbrev pub is_same : TableBody → Doc → Doc → Bool
is_same table doc d = elim (same_key table doc d) [ ok m ↦ m | err e ↦ false ]

-- `documents[index[0]] = doc`
unfoldable pub replace_first : TableBody → Doc → List Doc → List Doc
unfolding same_key
replace_first table doc [] = []
replace_first table doc (d ∷ ds) =
    if is_same table doc d then doc ∷ ds else d ∷ replace_first table doc ds

-- The new documents, and `__persist`. The file can be written: an exception of the file system, which
-- would leave the documents ahead of the file, is not modelled.
abbrev pub write : List Doc → LocalDocDb → LocalDocDb
write docs db = record db { documents = docs; persisted = docs }

abbrev pub place : TableBody → Doc → List Doc → ℕ → List Doc
place table doc docs n = if eqb n 1 then replace_first table doc docs else docs ++ (doc ∷ [])

abbrev pub write_or_raise : Result (List Doc) → Exec LocalDocDb (Unit {0})
write_or_raise (ok docs) db = (ok tt, write docs db)
write_or_raise (err e) db = (err e, db)

-- `LocalDocDbClient.update_document`; `create_document` calls it.
unfoldable pub update_document : Doc → String → Exec LocalDocDb (Unit {0})
unfolding count_same replace_first
update_document doc owner db =
    let owned = put "owner" owner doc in
    write_or_raise
      (then_ok (count_same db.table_body owned db.documents)
        (λ n. ok (place db.table_body owned db.documents n)))
      db

-- `documents.remove(item)`, for an item of the list.
unfoldable pub remove_item : Doc → List Doc → List Doc
remove_item item [] = []
remove_item item (d ∷ ds) = if key_eq d item then ds else d ∷ remove_item item ds

unfoldable pub remove_items : List Doc → List Doc → List Doc
unfolding remove_item
remove_items [] docs = docs
remove_items (item ∷ items) docs = remove_items items (remove_item item docs)

abbrev pub to_remove : TableBody → Doc → String → Doc → Result Bool
to_remove table doc owner d =
    then_ok (same_key table doc d)
      (λ m. if m then then_ok (field_of d "owner") (λ o. ok (o == owner)) else ok false)

-- `LocalDocDbClient.delete_document`
unfoldable pub delete_document : Doc → String → Exec LocalDocDb (Unit {0})
unfolding same_key filter_docs remove_items
delete_document doc owner db =
    write_or_raise
      (then_ok (filter_docs (to_remove db.table_body doc owner) db.documents)
        (λ items. ok (remove_items items db.documents)))
      db

-- `LocalDocDbClient.reset`
unfoldable pub reset : Exec LocalDocDb (Unit {0})
reset db = (ok tt, write [] db)
