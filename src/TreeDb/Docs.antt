-- ===== src/TreeDb/Docs.antt =====
-- src/youwol/backends/tree_db/utils.py: documents to responses and back.
use py_youwol.Prelude.{String, none, some, List, [], ◌∷◌}
use py_youwol.Prelude.Dict.{Dict, get}
use py_youwol.Prelude.Exec.{Result, ok, then_ok, bind_ok as ◌>>=◌}
use py_youwol.DocDb.Models.{Doc, field_of}
use py_youwol.TreeDb.Models.{Codec, ItemResponse, FolderResponse, DriveResponse}

-- `value(key)` of `doc_to_item` and `doc_to_folder`
abbrev pub value_of : Doc → Dict String → String → Result String
value_of doc with_attrs key = elim (get key with_attrs) [ some v ↦ ok v | none ↦ field_of doc key ]

unfoldable pub doc_to_item : Codec → Doc → Dict String → Result ItemResponse
doc_to_item c doc with_attrs = do
  metadata ← value_of doc with_attrs "metadata"
  borrowed ← c.borrowed_of metadata
  item_id ← value_of doc with_attrs "item_id"
  asset_id ← value_of doc with_attrs "related_id"
  raw_id ← c.decode_id asset_id
  folder_id ← value_of doc with_attrs "folder_id"
  drive_id ← value_of doc with_attrs "drive_id"
  group_id ← value_of doc with_attrs "group_id"
  name ← value_of doc with_attrs "name"
  kind ← value_of doc with_attrs "type"
  ok (record {
    item_id = item_id;
    asset_id = asset_id;
    raw_id = raw_id;
    folder_id = folder_id;
    drive_id = drive_id;
    group_id = group_id;
    name = name;
    kind = kind;
    metadata = metadata;
    borrowed = borrowed;
  })

unfoldable pub item_to_doc : ItemResponse → Doc
item_to_doc item =
    ("item_id", item.item_id)
    ∷ ("related_id", item.asset_id)
    ∷ ("folder_id", item.folder_id)
    ∷ ("drive_id", item.drive_id)
    ∷ ("group_id", item.group_id)
    ∷ ("name", item.name)
    ∷ ("type", item.kind)
    ∷ ("metadata", item.metadata)
    ∷ []

unfoldable pub doc_to_folder : Doc → Dict String → Result FolderResponse
doc_to_folder doc with_attrs = do
  folder_id ← value_of doc with_attrs "folder_id"
  parent_folder_id ← value_of doc with_attrs "parent_folder_id"
  drive_id ← value_of doc with_attrs "drive_id"
  group_id ← value_of doc with_attrs "group_id"
  name ← value_of doc with_attrs "name"
  kind ← value_of doc with_attrs "type"
  metadata ← value_of doc with_attrs "metadata"
  ok (record {
    folder_id = folder_id;
    parent_folder_id = parent_folder_id;
    drive_id = drive_id;
    group_id = group_id;
    name = name;
    kind = kind;
    metadata = metadata;
  })

unfoldable pub folder_to_doc : FolderResponse → Doc
folder_to_doc folder =
    ("folder_id", folder.folder_id)
    ∷ ("parent_folder_id", folder.parent_folder_id)
    ∷ ("drive_id", folder.drive_id)
    ∷ ("group_id", folder.group_id)
    ∷ ("name", folder.name)
    ∷ ("type", folder.kind)
    ∷ ("metadata", folder.metadata)
    ∷ []

unfoldable pub doc_to_drive_response : Doc → Result DriveResponse
doc_to_drive_response doc = do
  drive_id ← field_of doc "drive_id"
  group_id ← field_of doc "group_id"
  name ← field_of doc "name"
  metadata ← field_of doc "metadata"
  ok (record { drive_id = drive_id; group_id = group_id; name = name; metadata = metadata })

-- `[convert(d) for d in docs]`
abbrev pub convert_all : {A : Type 0} → (Doc → Result A) → List Doc → Result (List A)
convert_all f [] = ok []
convert_all f (d ∷ ds) = then_ok (f d) (λ a. then_ok (convert_all f ds) (λ as'. ok (a ∷ as')))

-- The document of an item in the trash, as `queue_delete_item` builds it.
unfoldable pub deleted_item : Doc → Result Doc
deleted_item doc = do
  deleted_id ← field_of doc "item_id"
  drive_id ← field_of doc "drive_id"
  kind ← field_of doc "type"
  related_id ← field_of doc "related_id"
  name ← field_of doc "name"
  folder_id ← field_of doc "folder_id"
  group_id ← field_of doc "group_id"
  metadata ← field_of doc "metadata"
  ok (
      ("deleted_id", deleted_id)
      ∷ ("drive_id", drive_id)
      ∷ ("type", kind)
      ∷ ("kind", "item")
      ∷ ("related_id", related_id)
      ∷ ("name", name)
      ∷ ("parent_folder_id", folder_id)
      ∷ ("group_id", group_id)
      ∷ ("metadata", metadata)
      ∷ [])

-- The document of a folder in the trash, as `queue_delete_folder` builds it.
unfoldable pub deleted_folder : Doc → Result Doc
deleted_folder doc = do
  deleted_id ← field_of doc "folder_id"
  drive_id ← field_of doc "drive_id"
  kind ← field_of doc "type"
  name ← field_of doc "name"
  parent_folder_id ← field_of doc "parent_folder_id"
  group_id ← field_of doc "group_id"
  metadata ← field_of doc "metadata"
  ok (
      ("deleted_id", deleted_id)
      ∷ ("drive_id", drive_id)
      ∷ ("type", kind)
      ∷ ("kind", "folder")
      ∷ ("name", name)
      ∷ ("parent_folder_id", parent_folder_id)
      ∷ ("related_id", "")
      ∷ ("group_id", group_id)
      ∷ ("metadata", metadata)
      ∷ [])
