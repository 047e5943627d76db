-- ===== src/TreeDb/Laws/Docs.antt =====
-- Responses to documents and back.
use py_youwol.Prelude.{◌≡◌, refl, []}
use py_youwol.Prelude.Exec.{ok, bind_ok}
use py_youwol.TreeDb.Models.{Codec, ItemResponse, FolderResponse}
use py_youwol.TreeDb.Docs.{doc_to_item, item_to_doc, doc_to_folder, folder_to_doc}

-- A folder is read back from its document; so is an item whose flag `borrowed` is the one in its
-- metadata and whose raw id is its asset id decoded.
pub doc_to_item-item_to_doc :
    (c : Codec) (i : ItemResponse) (f : FolderResponse)
    → c.borrowed_of i.metadata ≡ ok i.borrowed
    → c.decode_id i.asset_id ≡ ok i.raw_id
    → (doc_to_item c (item_to_doc i) [] ≡ ok i) × (doc_to_folder (folder_to_doc f) [] ≡ ok f)
unfolding doc_to_item item_to_doc doc_to_folder folder_to_doc bind_ok
doc_to_item-item_to_doc c i f e₁ e₂ = (rw (e₁, e₂), refl)
