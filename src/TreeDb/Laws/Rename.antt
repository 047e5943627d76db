-- ===== src/TreeDb/Laws/Rename.antt =====
-- `update_folder` and `get_folder` together.
use py_youwol.Prelude.{String, ◌≡◌, refl, ◌∙◌, sym, ap, none, some, []}
use mathlib.Core.Path.{subst}
use py_youwol.TreeDb.Invariant.Rules.{db_get-IsDoc}
use py_youwol.TreeDb.Invariant.Handlers.{put-IsDoc}
use py_youwol.Prelude.Dict.{get, put, get-put}
use py_youwol.Prelude.Exec.{Result, ok, err, http, then_ok, lift, ◌>>=◌, bind_ok}
use py_youwol.Prelude.{inl, inr, Option-cases}
use py_youwol.DocDb.Models.{Doc}
use py_youwol.TreeDb.Models.{DocDbs, FolderResponse}
use py_youwol.TreeDb.Docs.{doc_to_folder}
use py_youwol.TreeDb.Access.{folders, get_folder}
use py_youwol.TreeDb.Handlers.Folders.{update_folder}
use py_youwol.TreeDb.Invariant.Tables.{IsDoc, IsTree}
use py_youwol.TreeDb.Laws.Blocks.{field_of-get, field_of-put, field_of-put_same}
use py_youwol.TreeDb.Laws.Store.{doc_at, db_get_lem, db_post_lem, posted}
use py_youwol.TreeDb.Laws.Folders.{get_folder_lem, Stores, posted-Stores}

-- Renaming.
abbrev renamed : String → FolderResponse → Result FolderResponse
renamed name f = ok (record f { name = name })

doc_to_folder-put_name :
    (d : Doc) (name : String)
    → IsDoc folders d
    → doc_to_folder (put "name" name d) [] ≡ then_ok (doc_to_folder d []) (renamed name)
unfolding doc_to_folder bind_ok
doc_to_folder-put_name d name
      (((a, ea), ((b, eb), ((c, ec), ((e, ee), ((n, en), ((k, ek), ((m, em), t))))))), u) =
    rw (
      field_of-put d "name" name "folder_id" refl,
      field_of-put d "name" name "parent_folder_id" refl,
      field_of-put d "name" name "drive_id" refl,
      field_of-put d "name" name "group_id" refl,
      field_of-put d "name" name "type" refl,
      field_of-put d "name" name "metadata" refl,
      field_of-put_same d "name" name refl,
      field_of-get d "folder_id" a ea,
      field_of-get d "parent_folder_id" b eb,
      field_of-get d "drive_id" c ec,
      field_of-get d "group_id" e ee,
      field_of-get d "name" n en,
      field_of-get d "type" k ek,
      field_of-get d "metadata" m em,
    )

-- The document behind a folder that is read.
document_of_folder :
    (id : String) (s : DocDbs) (f : FolderResponse)
    → IsTree s
    → (get_folder id s).0 ≡ ok f
    → (d : Doc) × (doc_at folders id s ≡ some d) × (doc_to_folder d [] ≡ ok f)
document_of_folder id s f h e = elim (Option-cases (doc_at folders id s)) [
  | inl n ↦ cc (rw (get_folder_lem id s h, n) at e)
  | inr (d, t) ↦ (d, t, rw (get_folder_lem id s h, t) at e)
]

module _ (id name : String) (s : DocDbs) (h : IsTree s) where
  update_folder_lem :
      (d : Doc) (f : FolderResponse)
      → doc_at folders id s ≡ some d
      → get "folder_id" (put "name" name d) ≡ some id
      → IsDoc folders (put "name" name d)
      → doc_to_folder (put "name" name d) [] ≡ ok f
      → update_folder id name s ≡ (ok f, posted folders (put "name" name d) s)
  unfolding update_folder ◌>>=◌ lift
  update_folder_lem d f t key is_doc c =
      rw (db_get_lem folders id s h, t)
        (rw (db_post_lem folders (put "name" name d) id s h key is_doc, c))

  -- On well-formed tables, renaming a folder that is there returns it under its new name; from then
  -- on it is read so under its identifier, all its other fields as they were, every other folder is
  -- read as before, and the tables of items, of drives and of the trash are the ones that were there.
  pub update_folder-get_folder :
      (f : FolderResponse)
      → (get_folder id s).0 ≡ ok f
      → Stores id (record f { name = name }) s (update_folder id name s)
  update_folder-get_folder f e =
      let (d, t, c) = document_of_folder id s f h e in
      let (is_doc, key) =
        db_get-IsDoc folders id s h d
          (ap (λ (x : Result Doc × DocDbs). x.0) (db_get_lem folders id s h) ∙ rw t) in
      let doc = put "name" name d in
      let new_key = get-put "folder_id" "name" name d ∙ key in
      let new = put-IsDoc folders "name" name d tt is_doc in
      let back = doc_to_folder-put_name d name is_doc ∙ ap (λ r. then_ok r (renamed name)) c in
      subst (Stores id (record f { name = name }) s)
        (sym (update_folder_lem d (record f { name = name }) t new_key new back))
        (posted-Stores doc id s (record f { name = name }) h new_key new back)

  -- Renaming a folder that is not there raises a 404 and changes nothing.
  pub update_folder-missing :
      doc_at folders id s ≡ none → update_folder id name s ≡ (err (http 404), s)
  unfolding update_folder ◌>>=◌
  update_folder-missing n = rw (db_get_lem folders id s h, n)
