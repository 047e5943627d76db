-- ===== src/Examples/Tree.antt =====
-- The theorems of the endpoints at the sample.
use py_youwol.Prelude.{◌≡◌, refl, ap, false, none, some, [], ◌∷◌, arith}
use py_youwol.Prelude.Text.{has}
use py_youwol.Prelude.Exec.{Result, ok, err, http, out_of_fuel, pure, lift, ◌>>=◌, bind_ok}
use py_youwol.DocDb.Parse.Laws.{IsPlain}
use py_youwol.TreeDb.Models.{
  DocDbs, FolderBody, FolderResponse, ChildrenResponse, ItemResponse, DriveResponse,
}
use py_youwol.TreeDb.Docs.{doc_to_folder}
use py_youwol.TreeDb.Access.{
  items, folders, drives, deleted, db_query, get_parent, get_drive, create_folder,
}
use py_youwol.TreeDb.Listing.{entities_children, list_deleted}
use py_youwol.TreeDb.Handlers.Items.{queue_delete_item}
use py_youwol.TreeDb.Handlers.Folders.{update_folder, get_path_folder}
use py_youwol.TreeDb.Handlers.Drives.{delete_drive}
use py_youwol.TreeDb.Laws.Store.{db_get_lem, db_query_lem}
use py_youwol.TreeDb.Laws.Parent.{get_parent_lem}
use py_youwol.TreeDb.Laws.Folders.{
  Stores, made_folder, create_folder-missing, create_folder-get_folder,
}
use py_youwol.TreeDb.Laws.Rename.{update_folder-get_folder}
use py_youwol.TreeDb.Laws.Items.{Deletes, get_item-queue_delete_item}
use py_youwol.TreeDb.Laws.Drives.{delete_drive-content}
use py_youwol.TreeDb.Laws.Path.{top, get_path_folder-IsPath, get_path_folder-loop}
use py_youwol.Examples.Sample.{
  codec, drive_doc, folder_doc, item_doc, sample, sample-IsTree, folder, home_is_there,
  loop_is_there,
}

abbrev body : FolderBody
body = record { name = "New"; kind = ""; metadata = ""; folder_id = some "new" }

home-IsPlain : IsPlain "home"
unfolding has
home-IsPlain = record {
  no_at = refl;
  no_hash = refl;
  no_comma = refl;
  no_less = refl;
  no_greater = refl;
}

x-IsPlain : IsPlain "x"
unfolding has
x-IsPlain = record {
  no_at = refl;
  no_hash = refl;
  no_comma = refl;
  no_less = refl;
  no_greater = refl;
}

d-IsPlain : IsPlain "d"
unfolding has
d-IsPlain = record {
  no_at = refl;
  no_hash = refl;
  no_comma = refl;
  no_less = refl;
  no_greater = refl;
}

get_parent_lem_example : get_parent "d" sample ≡ (ok drive_doc, sample)
get_parent_lem_example = get_parent_lem "d" sample sample-IsTree d-IsPlain

create_folder-missing_example : create_folder "x" body "u" sample ≡ (err (http 404), sample)
create_folder-missing_example =
    create_folder-missing "x" body "u" sample sample-IsTree x-IsPlain refl

create_folder-get_folder_example :
    Stores "new" (made_folder "home" body "u" "g" "d") sample (create_folder "home" body "u" sample)
create_folder-get_folder_example =
    create_folder-get_folder "home" body "u" sample sample-IsTree home-IsPlain
      (folder_doc "home" "d") refl "g" "d" refl refl

update_folder-get_folder_example :
    Stores "home"
      (record (folder "home" "d") { name = "New name" })
      sample
      (update_folder "home" "New name" sample)
update_folder-get_folder_example =
    update_folder-get_folder "home" "New name" sample sample-IsTree (folder "home" "d")
      (ap (λ (x : Result FolderResponse × DocDbs). x.0) home_is_there)

get_item-queue_delete_item_example :
    Deletes codec "i" false sample item_doc (queue_delete_item "i" false sample)
get_item-queue_delete_item_example =
    get_item-queue_delete_item codec "i" false sample item_doc sample-IsTree refl

abbrev item : ItemResponse
item = record {
  item_id = "i";
  asset_id = "asset";
  raw_id = "asset";
  folder_id = "home";
  drive_id = "d";
  group_id = "g";
  name = "Item";
  kind = "data";
  metadata = "";
  borrowed = false;
}

parent-IsPlain : IsPlain "parent_folder_id"
unfolding has
parent-IsPlain = record {
  no_at = refl;
  no_hash = refl;
  no_comma = refl;
  no_less = refl;
  no_greater = refl;
}

folder-IsPlain : IsPlain "folder_id"
unfolding has
folder-IsPlain = record {
  no_at = refl;
  no_hash = refl;
  no_comma = refl;
  no_less = refl;
  no_greater = refl;
}

drive-IsPlain : IsPlain "drive_id"
unfolding has
drive-IsPlain = record {
  no_at = refl;
  no_hash = refl;
  no_comma = refl;
  no_less = refl;
  no_greater = refl;
}

db_query_lem_example :
    db_query folders "parent_folder_id" "d" 10 sample ≡ (ok (folder_doc "home" "d" ∷ []), sample)
unfolding has
db_query_lem_example =
    db_query_lem folders "parent_folder_id" "d" 10 sample sample-IsTree parent-IsPlain refl
      d-IsPlain refl

abbrev children : ChildrenResponse
children = record { items = []; folders = folder "home" "d" ∷ [] }

abbrev nothing : ChildrenResponse
nothing = record { items = []; folders = [] }

children_of_drive : entities_children codec "d" sample ≡ (ok children, sample)
unfolding entities_children ◌>>=◌ lift pure doc_to_folder bind_ok has
children_of_drive = rw (
  db_query_lem folders "parent_folder_id" "d" 1000 sample sample-IsTree parent-IsPlain refl
      d-IsPlain refl,
  db_query_lem items "folder_id" "d" 1000 sample sample-IsTree folder-IsPlain refl d-IsPlain refl,
)

trash_of_drive : list_deleted codec "d" sample ≡ (ok nothing, sample)
unfolding list_deleted ◌>>=◌ lift pure has
trash_of_drive =
    rw (
      db_query_lem deleted "drive_id" "d" 100 sample sample-IsTree drive-IsPlain refl d-IsPlain
        refl)

delete_drive-content_example : delete_drive codec "d" sample ≡ (err (http 428), sample)
delete_drive-content_example =
    delete_drive-content codec "d" sample sample-IsTree d-IsPlain children nothing drive_doc
      children_of_drive trash_of_drive refl

abbrev drive : DriveResponse
drive = record { drive_id = "d"; group_id = "g"; name = "Drive"; metadata = "" }

drive_is_there : get_drive "d" sample ≡ (ok drive, sample)
unfolding get_drive ◌>>=◌ lift pure
drive_is_there = rw (db_get_lem drives "d" sample sample-IsTree)

get_path_folder-IsPath_example :
    get_path_folder 1 "home" sample
    ≡ (ok (record { item = none; folders = folder "home" "d" ∷ []; drive = drive }), sample)
get_path_folder-IsPath_example =
    get_path_folder-IsPath sample (folder "home" "d") drive home_is_there drive_is_there 1
      (folder "home" "d" ∷ []) (top (folder "home" "d") refl) (omega arith)

get_path_folder-loop_example : get_path_folder 1000 "loop" sample ≡ (err out_of_fuel, sample)
get_path_folder-loop_example =
    get_path_folder-loop sample (folder "loop" "loop") drive loop_is_there drive_is_there 1000 refl
      refl
