-- ===== src/Examples/Moves.antt =====
-- An item that moves to another folder.
use py_youwol.Prelude.{◌≡◌, refl, true, false}
use py_youwol.Prelude.Exec.{ok, pure, lift, ◌>>=◌, bind_ok}
use py_youwol.Prelude.Text.{has}
use py_youwol.DocDb.Parse.Laws.{IsPlain}
use py_youwol.TreeDb.Models.{ItemResponse, folder_entity}
use py_youwol.TreeDb.Docs.{doc_to_item, doc_to_folder}
use py_youwol.TreeDb.Access.{folders, drives, items}
use py_youwol.TreeDb.Handlers.Items.{get_item}
use py_youwol.TreeDb.Handlers.Entities.{get_entity, move}
use py_youwol.TreeDb.Laws.Store.{db_get_lem, db_query_lem}
use py_youwol.TreeDb.Laws.Parent.{folder_id-IsPlain, drive_id-IsPlain, lacks_equals}
use py_youwol.TreeDb.Laws.Move.{MovesItem, placed, move-get_item}
use py_youwol.Examples.Sample.{codec, sample, sample-IsTree, folder}

i-IsPlain : IsPlain "i"
unfolding has
i-IsPlain = record {
  no_at = refl;
  no_hash = refl;
  no_comma = refl;
  no_less = refl;
  no_greater = refl;
}

loop-IsPlain : IsPlain "loop"
unfolding has
loop-IsPlain = record {
  no_at = refl;
  no_hash = refl;
  no_comma = refl;
  no_less = refl;
  no_greater = refl;
}

destination_there :
    get_entity codec "loop" true true false sample
    ≡ (ok (folder_entity (folder "loop" "loop")), sample)
unfolding get_entity doc_to_folder bind_ok ◌>>=◌ lift pure
destination_there =
    rw
      (
        db_query_lem folders "folder_id" "loop" 1 sample sample-IsTree folder_id-IsPlain
            lacks_equals.0 loop-IsPlain refl,
        db_query_lem drives "drive_id" "loop" 1 sample sample-IsTree drive_id-IsPlain lacks_equals.1
            loop-IsPlain refl,
      )
      refl

abbrev item : ItemResponse
item = record {
  item_id = "i";
  asset_id = "asset";
  raw_id = "asset";
  folder_id = "home";
  drive_id = "d";
  group_id = "g";
  name = "Item";
  kind = "data";
  metadata = "";
  borrowed = false;
}

item_is_there : (get_item codec "i" sample).0 ≡ ok item
unfolding get_item doc_to_item bind_ok ◌>>=◌ lift
item_is_there = rw (db_get_lem items "i" sample sample-IsTree) refl

move-get_item_example :
    MovesItem codec "i"
      (placed (folder_entity (folder "loop" "loop")) item)
      sample
      (move codec 1 (record { target_id = "i"; destination_folder_id = "loop" }) sample)
move-get_item_example =
    move-get_item codec 0 "i" "loop" sample sample-IsTree i-IsPlain
      (folder_entity (folder "loop" "loop")) destination_there item item_is_there
