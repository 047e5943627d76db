-- ===== src/TreeDb/Laws/Trash.antt =====
-- The document that `queue_delete_item` puts in the trash.
use py_youwol.Prelude.{String, ◌≡◌, refl, sym, some, [], ◌∷◌}
use py_youwol.Prelude.Dict.{get}
use py_youwol.Prelude.Exec.{ok, bind_ok}
use py_youwol.DocDb.Models.{Doc}
use py_youwol.TreeDb.Docs.{deleted_item}
use py_youwol.TreeDb.Access.{items, deleted}
use py_youwol.TreeDb.Invariant.Tables.{IsDoc}
use py_youwol.TreeDb.Laws.Blocks.{field_of-get}

-- The document `x` of the trash stands for the document `d` of an item: the same drive, kind, asset,
-- name, group and metadata, under the identifier of the item and with its folder as the parent.
pub record IsTrashOf (d x : Doc) : Type 0 where
  pub deleted_id : get "deleted_id" x ≡ get "item_id" d
  pub parent_folder_id : get "parent_folder_id" x ≡ get "folder_id" d
  pub drive_id : get "drive_id" x ≡ get "drive_id" d
  pub group_id : get "group_id" x ≡ get "group_id" d
  pub related_id : get "related_id" x ≡ get "related_id" d
  pub name : get "name" x ≡ get "name" d
  pub item_type : get "type" x ≡ get "type" d
  pub metadata : get "metadata" x ≡ get "metadata" d
  pub kind : get "kind" x ≡ some "item"

-- The document in the trash of an item with all its columns.
pub deleted_item-of_item :
    (d : Doc) (id : String)
    → IsDoc items d
    → get "item_id" d ≡ some id
    → (x : Doc) × (deleted_item d ≡ ok x)
      × IsDoc deleted x
      × (get "deleted_id" x ≡ some id)
      × IsTrashOf d x
unfolding deleted_item bind_ok
deleted_item-of_item d id
      ((_, ((f, ef), ((v, ev), ((r, er), ((g, eg), ((n, en), ((k, ek), ((m, em), t)))))))), u) key =
    (
      ("deleted_id", id)
          ∷ ("drive_id", v)
          ∷ ("type", k)
          ∷ ("kind", "item")
          ∷ ("related_id", r)
          ∷ ("name", n)
          ∷ ("parent_folder_id", f)
          ∷ ("group_id", g)
          ∷ ("metadata", m)
          ∷ [],
      rw (
        field_of-get d "item_id" id key,
        field_of-get d "folder_id" f ef,
        field_of-get d "drive_id" v ev,
        field_of-get d "related_id" r er,
        field_of-get d "group_id" g eg,
        field_of-get d "name" n en,
        field_of-get d "type" k ek,
        field_of-get d "metadata" m em,
      ),
      (
        (
          (_, refl),
          (
            (_, refl),
            (
              (_, refl),
              ((_, refl), ((_, refl), ((_, refl), ((_, refl), ((_, refl), ((_, refl), tt)))))),
            ),
          ),
        ),
        tt,
      ),
      refl,
      record {
        deleted_id = sym key;
        parent_folder_id = sym ef;
        drive_id = sym ev;
        group_id = sym eg;
        related_id = sym er;
        name = sym en;
        item_type = sym ek;
        metadata = sym em;
        kind = refl;
      },
    )
