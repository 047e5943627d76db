-- ===== src/TreeDb/DefaultDrive.antt =====
-- `get_default_drive` of src/youwol/backends/tree_db/utils.py.
use py_youwol.Prelude.{String, ◌<>◌, some, List, [], ◌∷◌}
use py_youwol.Prelude.Exec.{value_error, Exec, pure, raise, ◌>>=◌, gather}
use py_youwol.TreeDb.Models.{DocDbs, FolderResponse, DriveResponse, DefaultDriveResponse}
use py_youwol.TreeDb.Access.{get_drive, create_drive, ensure_folder, catch_404}

-- `download, home, system = …`
abbrev pub unpack_three :
    List FolderResponse → Exec DocDbs (FolderResponse × FolderResponse × FolderResponse)
unpack_three (a ∷ b ∷ c ∷ []) = pure (a, b, c)
unpack_three (a ∷ b ∷ _) = raise value_error
unpack_three (a ∷ _) = raise value_error
unpack_three _ = raise value_error

abbrev pub unpack_two : List FolderResponse → Exec DocDbs (FolderResponse × FolderResponse)
unpack_two (a ∷ b ∷ []) = pure (a, b)
unpack_two (a ∷ _) = raise value_error
unpack_two _ = raise value_error

abbrev pub default_drive_id : String → String
default_drive_id group_id = group_id <> "_default-drive"

-- The drive, made if it is not there yet.
unfoldable pub ensure_drive : String → Exec DocDbs DriveResponse
ensure_drive group_id = catch_404 (get_drive (default_drive_id group_id)) (
    create_drive group_id
      (record {
        name = "Default drive";
        drive_id = some (default_drive_id group_id);
        metadata = "";
      })
      "")

unfoldable pub get_default_drive : String → Exec DocDbs DefaultDriveResponse
unfolding ensure_drive
get_default_drive group_id =
    let drive_id = default_drive_id group_id in
    (do
      drive ← ensure_drive group_id
      first ← gather (
          ensure_folder "Download" (drive_id <> "_download") drive_id
          ∷ ensure_folder "Home" (drive_id <> "_home") drive_id
          ∷ ensure_folder "System" (drive_id <> "_system") drive_id
          ∷ [])
      (download, home, system) ← unpack_three first
      second ← gather (
          ensure_folder "Packages" (drive_id <> "_system_packages") system.folder_id
          ∷ ensure_folder "Tmp" (drive_id <> "_system_tmp") system.folder_id
          ∷ [])
      (system_packages, tmp) ← unpack_two second
      pure (record {
        group_id = group_id;
        drive_id = drive_id;
        drive_name = "Default drive";
        download = download;
        home = home;
        tmp = tmp;
        system = system;
        system_packages = system_packages;
      }))
