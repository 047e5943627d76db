-- ===== src/TreeDb/Handlers/Groups.antt =====
-- src/youwol/backends/tree_db/routers/groups.py
use py_youwol.Prelude.{String, not, List, [], ◌∷◌, map, select, ◌==◌}
use py_youwol.Prelude.Exec.{Result, ok, Exec, lift, ◌>>=◌, ◌>>◌, then_ok}
use py_youwol.DocDb.Models.{Doc}
use py_youwol.Groups.{
  Base64, User, to_group_id, private_group_id, get_all_individual_groups, ensure_group_permission,
}
use py_youwol.TreeDb.Models.{DocDbs, DriveBody, DriveResponse, DefaultDriveResponse}
use py_youwol.TreeDb.Docs.{doc_to_drive_response}
use py_youwol.TreeDb.Access.{drives, db_query, create_drive}
use py_youwol.TreeDb.DefaultDrive.{get_default_drive}

pub record Group : Type 0 where
  pub id : String
  pub path : String

-- The private group of the user, and the groups above and at those that the user belongs to.
unfoldable pub get_groups : Base64 → (List String → List String) → User → List Group
unfolding private_group_id get_all_individual_groups to_group_id
get_groups c distinct user =
    record { id = private_group_id user; path = "private" }
    ∷ map (λ g. record { id = to_group_id c g; path = g })
        (select (λ g. not (g == "")) (get_all_individual_groups distinct user.memberof))

unfoldable pub create_group_drive : String → DriveBody → String → Exec DocDbs DriveResponse
unfolding create_drive
create_group_drive group_id drive fresh = create_drive group_id drive fresh

-- `[doc_to_drive_response(d) for d in documents]`
abbrev pub drive_responses : List Doc → Result (List DriveResponse)
drive_responses [] = ok []
drive_responses (d ∷ docs) =
    then_ok (doc_to_drive_response d)
      (λ drive. then_ok (drive_responses docs) (λ rest. ok (drive ∷ rest)))

unfoldable pub list_drives :
    Base64 → (List String → List String) → User → String → Exec DocDbs (List DriveResponse)
list_drives c distinct user group_id = do
  lift (ensure_group_permission c distinct user group_id)
  documents ← db_query drives "group_id" group_id 100
  lift (drive_responses documents)

unfoldable pub get_group_default_drive : String → Exec DocDbs DefaultDriveResponse
unfolding get_default_drive
get_group_default_drive group_id = get_default_drive group_id
