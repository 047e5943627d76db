-- ===== src/Examples/Tables.antt =====
-- The theorems of the tables at the folders of the sample.
use py_youwol.Prelude.{String, ◌≡◌, refl, [], ◌∷◌}
use py_youwol.Prelude.Text.{has}
use py_youwol.Prelude.Dict.{put}
use py_youwol.Prelude.Exec.{ok, err, http}
use py_youwol.DocDb.Models.{Doc}
use py_youwol.DocDb.Parse.{parse}
use py_youwol.DocDb.Parse.Laws.{IsPlain, query_text, equals_query, parse-query_text}
use py_youwol.DocDb.Local.{LocalDocDb, query, get_document}
use py_youwol.DocDb.Write.{write, update_document, delete_document}
use py_youwol.DocDb.Table.Rows.{has_value, upsert}
use py_youwol.DocDb.Table.Reads.{query-equals}
use py_youwol.DocDb.Table.Writes.{update_document-upsert, delete_document-select}
use py_youwol.DocDb.Table.Store.{get_document-update_document, get_document-delete_document}
use py_youwol.Examples.Sample.{folder_doc, sample, sample-IsTree}

abbrev db : LocalDocDb
db = sample.folders_db

abbrev owner : String
owner = "/youwol-users"

abbrev new : Doc
new = folder_doc "new" "home"

folder_id-IsPlain : IsPlain "folder_id"
unfolding has
folder_id-IsPlain = record {
  no_at = refl;
  no_hash = refl;
  no_comma = refl;
  no_less = refl;
  no_greater = refl;
}

home-IsPlain : IsPlain "home"
unfolding has
home-IsPlain = record {
  no_at = refl;
  no_hash = refl;
  no_comma = refl;
  no_less = refl;
  no_greater = refl;
}

parse-query_text_example :
    parse (query_text "folder_id" "home" 1) ≡ ok (equals_query "folder_id" "home" 1)
unfolding has
parse-query_text_example = parse-query_text "folder_id" "home" folder_id-IsPlain home-IsPlain refl 1

query-equals_example :
    query (equals_query "parent_folder_id" "d" 10) owner db ≡ ok (folder_doc "home" "d" ∷ [])
query-equals_example =
    query-equals "folder_id" "parent_folder_id" "d" owner 10 db sample-IsTree.of_folders.table refl

update_document-upsert_example :
    update_document new owner db
    ≡ (ok tt, write (upsert (has_value "folder_id" "new") (put "owner" owner new) db.documents) db)
update_document-upsert_example =
    update_document-upsert "folder_id" "new" owner new db sample-IsTree.of_folders.table refl

delete_document-select_example :
    delete_document (folder_doc "home" "d") owner db
    ≡ (ok tt, write (folder_doc "loop" "loop" ∷ []) db)
delete_document-select_example =
    delete_document-select "folder_id" "home" owner (folder_doc "home" "d") db
      sample-IsTree.of_folders.table refl

get_document-update_document_example :
    get_document (("folder_id", "new") ∷ []) [] owner (update_document new owner db).1 ≡ ok new
get_document-update_document_example =
    get_document-update_document "folder_id" "new" owner new db sample-IsTree.of_folders.table refl
      owner "new"
      ((_, refl), ((_, refl), ((_, refl), ((_, refl), ((_, refl), ((_, refl), ((_, refl), tt)))))))

get_document-delete_document_example :
    get_document
      (("folder_id", "home") ∷ [])
      []
      owner
      (delete_document (folder_doc "home" "d") owner db).1
    ≡ err (http 404)
get_document-delete_document_example =
    get_document-delete_document "folder_id" "home" owner (folder_doc "home" "d") db
      sample-IsTree.of_folders.table refl owner "home"
