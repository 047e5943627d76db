-- ===== src/TreeDb/Laws/Folders.antt =====
-- `get_folder` and `create_folder` together.
use py_youwol.Prelude.{
  String, ◌≡◌, refl, ◌∙◌, sym, ap, Option, none, some, [], ◌∷◌, ◌==◌, if◌then◌else◌,
}
use mathlib.Core.Path.{subst}
use py_youwol.Prelude.Dict.{get, put}
use py_youwol.Prelude.Exec.{Result, ok, err, http, then_ok, lift, ◌>>=◌, bind_ok}
use py_youwol.DocDb.Parse.Laws.{IsPlain}
use py_youwol.DocDb.Models.{Doc}
use py_youwol.DocDb.Local.{get_document}
use py_youwol.DocDb.Table.Reads.{found}
use py_youwol.TreeDb.Models.{DocDbs, FolderBody, FolderResponse}
use py_youwol.TreeDb.Docs.{doc_to_folder}
use py_youwol.TreeDb.Access.{
  look, folders, public_owner, db_get, get_folder, create_folder, or_fresh,
}
use py_youwol.TreeDb.Invariant.Tables.{IsDoc, IsTree}
use py_youwol.TreeDb.Laws.Blocks.{then_ok-if, field_of-get, continue-lift, doc_to_folder-put_owner}
use py_youwol.TreeDb.Laws.Store.{doc_at, db_get_lem, db_post_lem, posted, db_get-posted}
use py_youwol.TreeDb.Laws.Parent.{parent_at, get_parent_lem}

-- What `get_folder` returns of the document it finds.
abbrev pub folder_of : Option Doc → Result FolderResponse
folder_of o = then_ok (found o) (λ d. doc_to_folder d [])

pub get_folder_lem :
    (id : String) (s : DocDbs) → IsTree s → get_folder id s ≡ (folder_of (doc_at folders id s), s)
unfolding get_folder ◌>>=◌ lift
get_folder_lem id s h =
    rw (db_get_lem folders id s h)
      (continue-lift (found (doc_at folders id s)) (λ d. doc_to_folder d []) s)

-- `get_folder` on any tables.
get_folder-document :
    (j : String) (s : DocDbs)
    → (get_folder j s).0
      ≡ then_ok
          (get_document (("folder_id", j) ∷ []) [] public_owner s.folders_db)
          (λ d. doc_to_folder d [])
unfolding get_folder ◌>>=◌ db_get look
get_folder-document j s =
    ap (λ (x : Result FolderResponse × DocDbs). x.0)
      (continue-lift (get_document (("folder_id", j) ∷ []) [] public_owner s.folders_db)
        (λ d. doc_to_folder d []) s)

-- What is read after a write to the folders.
get_folder-posted :
    (doc : Doc) (k : String) (s : DocDbs)
    → IsTree s
    → get "folder_id" doc ≡ some k
    → IsDoc folders doc
    → (j : String)
    → (get_folder j (posted folders doc s)).0
      ≡ (if k == j then doc_to_folder doc [] else (get_folder j s).0)
get_folder-posted doc k s h key d j =
    get_folder-document j (posted folders doc s)
    ∙ rw (db_get-posted folders doc k s h key j d) (
        then_ok-if (k == j) (ok (put "owner" public_owner doc)) (found (doc_at folders j s))
          (λ x. doc_to_folder x [])
        ∙ rw (doc_to_folder-put_owner doc public_owner, get_folder_lem j s h))

-- What `out` says of a run that writes a folder: it returns the folder, which is then read under its
-- identifier, every other folder is read as before, and the tables of items, of drives and of the
-- trash are the ones that were there.
abbrev pub Stores : String → FolderResponse → DocDbs → Result FolderResponse × DocDbs → Type 0
Stores k f s out =
    (out.0 ≡ ok f)
    × ((j : String) → (get_folder j out.1).0 ≡ (if k == j then ok f else (get_folder j s).0))
    × (out.1.items_db ≡ s.items_db)
    × (out.1.drives_db ≡ s.drives_db)
    × (out.1.deleted_db ≡ s.deleted_db)

pub posted-Stores :
    (doc : Doc) (k : String) (s : DocDbs) (f : FolderResponse)
    → IsTree s
    → get "folder_id" doc ≡ some k
    → IsDoc folders doc
    → doc_to_folder doc [] ≡ ok f
    → Stores k f s (ok f, posted folders doc s)
posted-Stores doc k s f h key d c = (
  refl,
  λ j. get_folder-posted doc k s h key d j ∙ ap (λ r. if k == j then r else (get_folder j s).0) c,
  refl,
  refl,
  refl,
)

-- The folder that `create_folder` makes under a parent of the group and drive given.
abbrev pub made_folder : String → FolderBody → String → String → String → FolderResponse
made_folder parent_id body fresh group_id drive_id = record {
  folder_id = or_fresh body.folder_id fresh;
  parent_folder_id = parent_id;
  drive_id = drive_id;
  group_id = group_id;
  name = body.name;
  kind = body.kind;
  metadata = body.metadata;
}

abbrev doc_of : String → FolderBody → String → String → String → Doc
doc_of parent_id body fresh group_id drive_id =
    ("folder_id", or_fresh body.folder_id fresh)
    ∷ ("name", body.name)
    ∷ ("parent_folder_id", parent_id)
    ∷ ("group_id", group_id)
    ∷ ("type", body.kind)
    ∷ ("metadata", body.metadata)
    ∷ ("drive_id", drive_id)
    ∷ []

doc_of-folder :
    (p : String) (b : FolderBody) (f g d : String)
    → doc_to_folder (doc_of p b f g d) [] ≡ ok (made_folder p b f g d)
unfolding doc_to_folder bind_ok
doc_of-folder p b f g d = refl

-- On well-formed tables, for a parent identifier without the characters `@ # , < >` under which there
-- is no folder and no drive, `create_folder` raises a 404 and changes nothing.
pub create_folder-missing :
    (parent_id : String) (body : FolderBody) (fresh : String) (s : DocDbs)
    → IsTree s
    → IsPlain parent_id
    → parent_at parent_id s ≡ none
    → create_folder parent_id body fresh s ≡ (err (http 404), s)
unfolding create_folder ◌>>=◌
create_folder-missing parent_id body fresh s h p none_there =
    rw (get_parent_lem parent_id s h p) (rw none_there)

module _ (parent_id : String) (body : FolderBody) (fresh : String) (s : DocDbs) (h : IsTree s)
    (p : IsPlain parent_id) (parent : Doc) (there : parent_at parent_id s ≡ some parent)
    (g d : String) (group : get "group_id" parent ≡ some g)
    (drive : get "drive_id" parent ≡ some d) where
  abbrev doc : Doc
  doc = doc_of parent_id body fresh g d

  doc-IsDoc : IsDoc folders doc
  doc-IsDoc = (
    ((_, refl), ((_, refl), ((_, refl), ((_, refl), ((_, refl), ((_, refl), ((_, refl), tt))))))),
    tt,
  )

  create_folder_lem :
      create_folder parent_id body fresh s
      ≡ (ok (made_folder parent_id body fresh g d), posted folders doc s)
  unfolding create_folder ◌>>=◌ lift
  create_folder_lem =
      rw (get_parent_lem parent_id s h p, there)
        (rw (
          field_of-get parent "group_id" g group,
          field_of-get parent "drive_id" d drive,
          db_post_lem folders doc (or_fresh body.folder_id fresh) s h refl doc-IsDoc,
          doc_of-folder parent_id body fresh g d,
        ))

  -- On well-formed tables, for a parent that is there, a folder or else a drive, under an identifier
  -- without the characters `@ # , < >`, and that has a group and a drive, `create_folder` returns the
  -- folder it made, in the group and the drive of the parent; from then on the folder is read under
  -- its identifier, every other folder is read as before, and the tables of items, of drives and of
  -- the trash are the ones that were there.
  pub create_folder-get_folder :
      Stores
        (or_fresh body.folder_id fresh)
        (made_folder parent_id body fresh g d)
        s
        (create_folder parent_id body fresh s)
  create_folder-get_folder =
      subst (Stores (or_fresh body.folder_id fresh) (made_folder parent_id body fresh g d) s)
        (sym create_folder_lem)
        (posted-Stores doc (or_fresh body.folder_id fresh) s (made_folder parent_id body fresh g d)
          h refl doc-IsDoc (doc_of-folder parent_id body fresh g d))
