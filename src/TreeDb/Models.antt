-- ===== src/TreeDb/Models.antt =====
-- src/youwol/utils/http_clients/tree_db_backend/models.py: the bodies, the responses and the tables.
use py_youwol.Prelude.{ℕ, String, ◌≡◌, Bool, Option, List, [], ◌∷◌}
use py_youwol.Prelude.Exec.{Result, ok}
use py_youwol.DocDb.Models.{TableBody, SecondaryIndex}
use py_youwol.DocDb.Local.{LocalDocDb, open_table}
use py_youwol.DocDb.Models.{Doc}

pub record ItemResponse : Type 0 where
  pub item_id : String
  pub asset_id : String
  pub raw_id : String
  pub folder_id : String
  pub drive_id : String
  pub group_id : String
  pub name : String
  pub kind : String
  pub metadata : String
  pub borrowed : Bool

pub record FolderResponse : Type 0 where
  pub folder_id : String
  pub parent_folder_id : String
  pub drive_id : String
  pub group_id : String
  pub name : String
  pub kind : String
  pub metadata : String

pub record DriveResponse : Type 0 where
  pub drive_id : String
  pub group_id : String
  pub name : String
  pub metadata : String

-- The names of the folders are those that the folders have.
pub record DefaultDriveResponse : Type 0 where
  pub group_id : String
  pub drive_id : String
  pub drive_name : String
  pub download : FolderResponse
  pub home : FolderResponse
  pub tmp : FolderResponse
  pub system : FolderResponse
  pub system_packages : FolderResponse

pub data EntityResponse : Type 0 where
  item_entity : ItemResponse → EntityResponse
  folder_entity : FolderResponse → EntityResponse
  drive_entity : DriveResponse → EntityResponse

pub record ChildrenResponse : Type 0 where
  pub items : List ItemResponse
  pub folders : List FolderResponse

pub record PathResponse : Type 0 where
  pub item : Option ItemResponse
  pub folders : List FolderResponse
  pub drive : DriveResponse

pub record PurgeResponse : Type 0 where
  pub folders_count : ℕ
  pub items_count : ℕ
  pub items : List ItemResponse

pub record MoveResponse : Type 0 where
  pub folders_count : ℕ
  pub items : List ItemResponse

pub record ItemBody : Type 0 where
  pub name : String
  pub kind : String
  pub item_id : Option String
  pub borrowed : Bool
  pub asset_id : String

pub record MoveItemBody : Type 0 where
  pub target_id : String
  pub destination_folder_id : String

pub record BorrowBody : Type 0 where
  pub target_id : Option String
  pub destination_folder_id : String

pub record FolderBody : Type 0 where
  pub name : String
  pub kind : String
  pub metadata : String
  pub folder_id : Option String

pub record DriveBody : Type 0 where
  pub name : String
  pub drive_id : Option String
  pub metadata : String

abbrev table : String → String → List String → TableBody
table name pk columns = record {
  name = name;
  columns = columns;
  partition_key = pk ∷ [];
  clustering_columns = [];
  clustering_order = [];
}

abbrev pub files_table : TableBody
files_table = table "items" "item_id" (
    "item_id" ∷ "folder_id" ∷ "drive_id" ∷ "related_id" ∷ "group_id" ∷ "name" ∷ "type" ∷ "metadata"
    ∷ [])

abbrev pub folders_table : TableBody
folders_table =
    table "folders" "folder_id" (
      "folder_id" ∷ "parent_folder_id" ∷ "drive_id" ∷ "group_id" ∷ "name" ∷ "type" ∷ "metadata"
      ∷ [])

abbrev pub drives_table : TableBody
drives_table = table "drives" "drive_id" ("drive_id" ∷ "group_id" ∷ "name" ∷ "metadata" ∷ [])

abbrev pub deleted_table : TableBody
deleted_table = table "deleted" "deleted_id" (
    "deleted_id" ∷ "drive_id" ∷ "group_id" ∷ "related_id" ∷ "name" ∷ "type" ∷ "kind" ∷ "metadata"
    ∷ "parent_folder_id" ∷ [])

abbrev index : String → String → SecondaryIndex
index name column = record { name = name; column_name = column }

pub record DocDbs : Type 0 where
  pub items_db : LocalDocDb
  pub folders_db : LocalDocDb
  pub drives_db : LocalDocDb
  pub deleted_db : LocalDocDb

-- `create_doc_dbs`, over the documents of the four files.
unfoldable pub create_doc_dbs : List Doc → List Doc → List Doc → List Doc → DocDbs
unfolding open_table
create_doc_dbs items folders drives deleted = record {
  items_db =
      open_table files_table
        (index "items_by_parent" "folder_id" ∷ index "items_by_related" "related_id" ∷ []) items;
  folders_db = open_table folders_table (index "folders_by_parent" "parent_folder_id" ∷ []) folders;
  drives_db = open_table drives_table (index "drives_by_parent" "group_id" ∷ []) drives;
  deleted_db = open_table deleted_table (index "deleted_by_drive" "drive_id" ∷ []) deleted;
}

-- What the backend uses of base64 and JSON: `decode_id`, the flag `borrowed` of a metadata text
-- (false where it is missing), the text of `{"borrowed": b}`, and a text with the flag set.
pub record Codec : Type 0 where
  pub decode_id : String → Result String
  pub borrowed_of : String → Result Bool
  pub dump_borrowed : Bool → String
  pub mark_borrowed : String → Result String

pub record IsCodec (c : Codec) : Type 0 where
  pub borrowed-dump : (b : Bool) → c.borrowed_of (c.dump_borrowed b) ≡ ok b
