-- ===== src/TreeDb/Listing.antt =====
-- `entities_children` and `list_deleted` of src/youwol/backends/tree_db/utils.py.
use py_youwol.Prelude.{String, List, [], ◌∷◌, ◌==◌, if◌then◌else◌}
use py_youwol.Prelude.Exec.{Result, ok, then_ok, Exec, pure, lift, ◌>>=◌}
use py_youwol.DocDb.Models.{Doc, field_of}
use py_youwol.TreeDb.Models.{Codec, DocDbs, ItemResponse, FolderResponse, ChildrenResponse}
use py_youwol.TreeDb.Docs.{doc_to_item, doc_to_folder, convert_all}
use py_youwol.TreeDb.Access.{items, folders, deleted, db_query, max_children_count}

-- `[f for f in docs if f["kind"] == kind]`
abbrev pub of_kind : String → List Doc → Result (List Doc)
of_kind kind [] = ok []
of_kind kind (d ∷ ds) =
    then_ok (field_of d "kind")
      (λ k. then_ok (of_kind kind ds) (λ r. ok (if k == kind then d ∷ r else r)))

abbrev pub deleted_to_folder : Doc → Result FolderResponse
deleted_to_folder d =
    then_ok (field_of d "deleted_id") (λ id. doc_to_folder d (("folder_id", id) ∷ []))

module _ (c : Codec) where
  unfoldable pub entities_children : String → Exec DocDbs ChildrenResponse
  entities_children folder_id = do
    folder_docs ← db_query folders "parent_folder_id" folder_id max_children_count
    item_docs ← db_query items "folder_id" folder_id max_children_count
    child_folders ← lift (convert_all (λ d. doc_to_folder d []) folder_docs)
    child_items ← lift (convert_all (λ d. doc_to_item c d []) item_docs)
    pure (record { items = child_items; folders = child_folders })

  abbrev pub deleted_to_item : Doc → Result ItemResponse
  deleted_to_item d = then_ok (field_of d "deleted_id") (λ id.
      then_ok (field_of d "parent_folder_id")
        (λ parent. doc_to_item c d (("item_id", id) ∷ ("folder_id", parent) ∷ [])))

  unfoldable pub list_deleted : String → Exec DocDbs ChildrenResponse
  list_deleted drive_id = do
    docs ← db_query deleted "drive_id" drive_id 100
    folder_docs ← lift (of_kind "folder" docs)
    deleted_folders ← lift (convert_all deleted_to_folder folder_docs)
    item_docs ← lift (of_kind "item" docs)
    deleted_items ← lift (convert_all deleted_to_item item_docs)
    pure (record { items = deleted_items; folders = deleted_folders })
