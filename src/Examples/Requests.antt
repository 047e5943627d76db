-- ===== src/Examples/Requests.antt =====
-- The invariant at a run of requests.
use py_youwol.Prelude.{none, some, List, [], ◌∷◌}
use py_youwol.Prelude.Exec.Keeps.{Keeps}
use py_youwol.TreeDb.Handlers.Drives.{purge_drive}
use py_youwol.TreeDb.Handlers.Entities.{move}
use py_youwol.TreeDb.Invariant.Tables.{IsTree}
use py_youwol.TreeDb.Invariant.Move.{move-Keeps}
use py_youwol.TreeDb.Invariant.Purge.{purge_drive-Keeps}
use py_youwol.TreeDb.Invariant.Serve.{
  Request, post_folder, put_drive, post_move, trash_folder, read_default_drive, purge, serve,
  serve-IsTree,
}
use py_youwol.Examples.Sample.{codec, sample, sample-IsTree}

abbrev requests : List Request
requests =
    put_drive "g" (record { name = "D"; drive_id = some "e"; metadata = "" }) "u"
    ∷ post_folder "e" (record { name = "F"; kind = ""; metadata = ""; folder_id = none }) "v"
    ∷ post_move (record { target_id = "home"; destination_folder_id = "v" })
    ∷ read_default_drive "g"
    ∷ trash_folder "v"
    ∷ purge "e"
    ∷ []

serve-IsTree_example : IsTree (serve codec 10 requests sample)
serve-IsTree_example = serve-IsTree codec 10 requests sample sample-IsTree

move-Keeps_example :
    Keeps IsTree (move codec 3 (record { target_id = "i"; destination_folder_id = "d" }))
move-Keeps_example = move-Keeps codec 3 (record { target_id = "i"; destination_folder_id = "d" })

purge_drive-Keeps_example : Keeps IsTree (purge_drive codec 3 "d")
purge_drive-Keeps_example = purge_drive-Keeps codec 3 "d"
