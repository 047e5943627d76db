-- ===== src/Examples/Sample.antt =====
-- A drive with two folders, one of them its own parent, and one item.
use py_youwol.Prelude.{String, ◌≡◌, refl, [], ◌∷◌, ◌==◌, if◌then◌else◌}
use py_youwol.Prelude.Exec.{ok, bind_ok}
use py_youwol.DocDb.Models.{Doc}
use py_youwol.TreeDb.Models.{
  Codec, DocDbs, FolderResponse, files_table, folders_table, drives_table, deleted_table,
}
use py_youwol.TreeDb.Access.{get_folder}
use py_youwol.TreeDb.Docs.{doc_to_folder}
use py_youwol.TreeDb.Invariant.Tables.{IsTree}
use py_youwol.TreeDb.Laws.Folders.{get_folder_lem}

abbrev pub codec : Codec
codec = record {
  decode_id = λ s. ok s;
  borrowed_of = λ s. ok (s == "borrowed");
  dump_borrowed = λ b. if b then "borrowed" else "";
  mark_borrowed = λ s. ok "borrowed";
}

abbrev pub drive_doc : Doc
drive_doc =
    ("name", "Drive")
    ∷ ("drive_id", "d")
    ∷ ("group_id", "g")
    ∷ ("metadata", "")
    ∷ ("owner", "/youwol-users")
    ∷ []

abbrev pub folder_doc : String → String → Doc
folder_doc id parent =
    ("folder_id", id)
    ∷ ("name", "Folder")
    ∷ ("parent_folder_id", parent)
    ∷ ("group_id", "g")
    ∷ ("type", "")
    ∷ ("metadata", "")
    ∷ ("drive_id", "d")
    ∷ ("owner", "/youwol-users")
    ∷ []

abbrev pub item_doc : Doc
item_doc =
    ("item_id", "i")
    ∷ ("folder_id", "home")
    ∷ ("related_id", "asset")
    ∷ ("name", "Item")
    ∷ ("type", "data")
    ∷ ("group_id", "g")
    ∷ ("drive_id", "d")
    ∷ ("metadata", "")
    ∷ ("owner", "/youwol-users")
    ∷ []

abbrev pub sample : DocDbs
sample = record {
  items_db = record {
    table_body = files_table;
    secondary_indexes = [];
    documents = item_doc ∷ [];
    persisted = [];
  };
  folders_db = record {
    table_body = folders_table;
    secondary_indexes = [];
    documents = folder_doc "home" "d" ∷ folder_doc "loop" "loop" ∷ [];
    persisted = [];
  };
  drives_db = record {
    table_body = drives_table;
    secondary_indexes = [];
    documents = drive_doc ∷ [];
    persisted = [];
  };
  deleted_db = record {
    table_body = deleted_table;
    secondary_indexes = [];
    documents = [];
    persisted = [];
  };
}

pub sample-IsTree : IsTree sample
sample-IsTree = record {
  of_items = record {
    body = refl;
    table = record {
      simple = record { partition = refl; clustering = refl; order = refl };
      keyed = (("i", refl, tt), tt);
      complete = (
        (
          (_, refl),
          (
            (_, refl),
            (
              (_, refl),
              ((_, refl), ((_, refl), ((_, refl), ((_, refl), ((_, refl), ((_, refl), tt)))))),
            ),
          ),
        ),
        tt,
      );
    };
    apart = (refl, tt);
  };
  of_folders = record {
    body = refl;
    table = record {
      simple = record { partition = refl; clustering = refl; order = refl };
      keyed = (("home", refl, (refl, tt)), (("loop", refl, tt), tt));
      complete = (
        (
          (_, refl),
          (
            (_, refl),
            ((_, refl), ((_, refl), ((_, refl), ((_, refl), ((_, refl), ((_, refl), tt)))))),
          ),
        ),
        (
          (
            (_, refl),
            (
              (_, refl),
              ((_, refl), ((_, refl), ((_, refl), ((_, refl), ((_, refl), ((_, refl), tt)))))),
            ),
          ),
          tt,
        ),
      );
    };
    apart = (tt, (tt, tt));
  };
  of_drives = record {
    body = refl;
    table = record {
      simple = record { partition = refl; clustering = refl; order = refl };
      keyed = (("d", refl, tt), tt);
      complete = (((_, refl), ((_, refl), ((_, refl), ((_, refl), ((_, refl), tt))))), tt);
    };
    apart = (tt, tt);
  };
  of_deleted = record {
    body = refl;
    table = record {
      simple = record { partition = refl; clustering = refl; order = refl };
      keyed = tt;
      complete = tt;
    };
    apart = tt;
  };
}

abbrev pub folder : String → String → FolderResponse
folder id parent = record {
  folder_id = id;
  parent_folder_id = parent;
  drive_id = "d";
  group_id = "g";
  name = "Folder";
  kind = "";
  metadata = "";
}

pub home_is_there : get_folder "home" sample ≡ (ok (folder "home" "d"), sample)
unfolding doc_to_folder bind_ok
home_is_there = get_folder_lem "home" sample sample-IsTree

pub loop_is_there : get_folder "loop" sample ≡ (ok (folder "loop" "loop"), sample)
unfolding doc_to_folder bind_ok
loop_is_there = get_folder_lem "loop" sample sample-IsTree
