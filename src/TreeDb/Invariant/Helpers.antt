-- ===== src/TreeDb/Invariant/Helpers.antt =====
-- The functions of src/youwol/backends/tree_db/utils.py keep the tables.
use py_youwol.Prelude.{String, refl, List, [], ◌∷◌, ℕ, zero, suc, eqb}
use py_youwol.Prelude.Exec.{
  Result, ok, err, http, circular_dependencies, key_error, value_error, runtime_error, type_error,
  out_of_fuel, unmodelled, Exec,
}
use py_youwol.Prelude.Exec.Keeps.{
  Keeps, Keeps-pure, Keeps-raise, Keeps-lift, Keeps-if, Keeps-bind, Keeps-gather,
}
use py_youwol.DocDb.Models.{Doc}
use py_youwol.TreeDb.Models.{Codec, DocDbs, FolderResponse, FolderBody, DriveBody}
use py_youwol.TreeDb.Access.{
  folders, drives, get_parent, get_folder, get_drive, climb, get_folders_rec, first_or_404,
  create_folder, create_drive, on_404, catch_404, ensure_folder,
}
use py_youwol.TreeDb.DefaultDrive.{get_default_drive, unpack_three, unpack_two}
use py_youwol.TreeDb.Listing.{entities_children, list_deleted}
use py_youwol.TreeDb.Invariant.Tables.{IsTree}
use py_youwol.TreeDb.Invariant.Rules.{db_get-Keeps, db_query-Keeps, db_post-Keeps}

pub ruleset block_rules =
    (Keeps-bind, Keeps-pure, Keeps-raise, Keeps-lift, db_get-Keeps, db_query-Keeps)

parent-Keeps : (docs : List Doc) → Keeps IsTree (first_or_404 docs)
parent-Keeps [] = Keeps-raise _
parent-Keeps (d ∷ ds) = Keeps-pure d

pub get_parent-Keeps : (id : String) → Keeps IsTree (get_parent id)
unfolding get_parent
get_parent-Keeps id = search (block_rules, parent-Keeps)

pub get_folder-Keeps : (id : String) → Keeps IsTree (get_folder id)
unfolding get_folder
get_folder-Keeps id = search block_rules

pub get_drive-Keeps : (id : String) → Keeps IsTree (get_drive id)
unfolding get_drive
get_drive-Keeps id = search block_rules depth 9

pub create_folder-Keeps :
    (id : String) (folder : FolderBody) (fresh : String)
    → Keeps IsTree (create_folder id folder fresh)
unfolding create_folder
create_folder-Keeps id folder fresh = Keeps-bind _ _ (get_parent-Keeps id) λ parent.
    Keeps-bind _ _ (Keeps-lift _) λ group_id. Keeps-bind _ _ (Keeps-lift _) λ drive_id.
      Keeps-bind _ _
        (db_post-Keeps folders _ (
          (
            (_, refl),
            ((_, refl), ((_, refl), ((_, refl), ((_, refl), ((_, refl), ((_, refl), tt)))))),
          ),
          tt,
        ))
        λ _. Keeps-lift _

pub climb-Keeps :
    (fuel : ℕ) (first : FolderResponse) (others : List FolderResponse)
    → Keeps IsTree (climb fuel first others)
unfolding climb
climb-Keeps zero first others = Keeps-raise _
climb-Keeps (suc fuel) first others =
    Keeps-if _ _ _ (Keeps-pure _)
      (Keeps-bind _ _ (get_folder-Keeps _) (λ parent. climb-Keeps fuel parent (first ∷ others)))

pub get_folders_rec-Keeps :
    (fuel : ℕ) (folder_id drive_id : String)
    → Keeps IsTree (get_folders_rec fuel folder_id drive_id)
unfolding get_folders_rec
get_folders_rec-Keeps fuel folder_id drive_id =
    search (block_rules, get_drive-Keeps, get_folder-Keeps, climb-Keeps) depth 9

pub create_drive-Keeps :
    (group_id : String) (drive : DriveBody) (fresh : String)
    → Keeps IsTree (create_drive group_id drive fresh)
unfolding create_drive
create_drive-Keeps group_id drive fresh =
    Keeps-bind _ _
      (db_post-Keeps drives _ (((_, refl), ((_, refl), ((_, refl), ((_, refl), tt)))), tt))
      λ _. Keeps-lift _

on_404-Keeps :
    {A : Type 0} (r : Result A) (handler : Exec DocDbs A)
    → Keeps IsTree handler
    → Keeps IsTree (on_404 r handler)
on_404-Keeps (ok a) handler k = Keeps-pure a
on_404-Keeps (err (http n)) handler k = Keeps-if (eqb n 404) _ _ k (Keeps-raise _)
on_404-Keeps (err key_error) handler k = Keeps-raise _
on_404-Keeps (err value_error) handler k = Keeps-raise _
on_404-Keeps (err runtime_error) handler k = Keeps-raise _
on_404-Keeps (err type_error) handler k = Keeps-raise _
on_404-Keeps (err (circular_dependencies _)) handler k = k
on_404-Keeps (err out_of_fuel) handler k = Keeps-raise _
on_404-Keeps (err unmodelled) handler k = Keeps-raise _

catch_404-Keeps :
    {A : Type 0} (m handler : Exec DocDbs A)
    → Keeps IsTree m
    → Keeps IsTree handler
    → Keeps IsTree (catch_404 m handler)
unfolding catch_404
catch_404-Keeps m handler km kh = record {
  at = λ s h. (on_404-Keeps (m s).0 handler kh).at (m s).1 (km.at s h);
}

pub ensure_folder-Keeps :
    (name folder_id parent_folder_id : String)
    → Keeps IsTree (ensure_folder name folder_id parent_folder_id)
unfolding ensure_folder
ensure_folder-Keeps name folder_id parent_folder_id =
    catch_404-Keeps _ _ (get_folder-Keeps folder_id) (create_folder-Keeps parent_folder_id _ "")

unpack_three-Keeps : (fs : List FolderResponse) → Keeps IsTree (unpack_three fs)
unpack_three-Keeps [] = Keeps-raise _
unpack_three-Keeps (a ∷ []) = Keeps-raise _
unpack_three-Keeps (a ∷ b ∷ []) = Keeps-raise _
unpack_three-Keeps (a ∷ b ∷ c ∷ []) = Keeps-pure _
unpack_three-Keeps (a ∷ b ∷ c ∷ d ∷ fs) = Keeps-raise _

unpack_two-Keeps : (fs : List FolderResponse) → Keeps IsTree (unpack_two fs)
unpack_two-Keeps [] = Keeps-raise _
unpack_two-Keeps (a ∷ []) = Keeps-raise _
unpack_two-Keeps (a ∷ b ∷ []) = Keeps-pure _
unpack_two-Keeps (a ∷ b ∷ c ∷ fs) = Keeps-raise _

pub get_default_drive-Keeps : (group_id : String) → Keeps IsTree (get_default_drive group_id)
unfolding get_default_drive
get_default_drive-Keeps group_id =
    Keeps-bind _ _ (catch_404-Keeps _ _ (get_drive-Keeps _) (create_drive-Keeps _ _ "")) λ drive.
      Keeps-bind _ _
        (Keeps-gather _ (
          (
            ensure_folder-Keeps _ _ _,
            (ensure_folder-Keeps _ _ _, (ensure_folder-Keeps _ _ _, tt)),
          )))
        λ first. Keeps-bind _ _ (unpack_three-Keeps first) λ p.
          Keeps-bind _ _
            (Keeps-gather _ ((ensure_folder-Keeps _ _ _, (ensure_folder-Keeps _ _ _, tt))))
            λ second. Keeps-bind _ _ (unpack_two-Keeps second) λ q. Keeps-pure _

module _ (c : Codec) where
  pub entities_children-Keeps : (id : String) → Keeps IsTree (entities_children c id)
  unfolding entities_children
  entities_children-Keeps id = search block_rules depth 9

  pub list_deleted-Keeps : (id : String) → Keeps IsTree (list_deleted c id)
  unfolding list_deleted
  list_deleted-Keeps id = search block_rules depth 11
