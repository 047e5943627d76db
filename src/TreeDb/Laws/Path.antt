-- ===== src/TreeDb/Laws/Path.antt =====
-- `get_folders_rec`: the folders from the drive down to a folder.
use py_youwol.Prelude.{
  ℕ, zero, suc, ◌≤◌, ◌≡◌, refl, ◌∙◌, sym, ap, Bool, true, false, none, List, [], ◌∷◌, ◌++◌, ◌==◌,
  length, length-append, arith,
}
use mathlib.Core.Path.{subst}
use py_youwol.Prelude.Exec.{out_of_fuel, ok, err, pure, raise, ◌>>=◌}
use py_youwol.TreeDb.Models.{DocDbs, FolderResponse, DriveResponse}
use py_youwol.TreeDb.Access.{get_folder, get_drive, climb, get_folders_rec}
use py_youwol.TreeDb.Handlers.Folders.{get_path_folder}

-- A folder is at the top when its parent is the drive.
abbrev pub is_top : FolderResponse → Bool
is_top f = f.parent_folder_id == f.drive_id

-- `IsPath s f fs`: `fs` are the folders from the one at the top down to `f`.
pub data IsPath (s : DocDbs) : FolderResponse → List FolderResponse → Type 0 where
  top : (f : FolderResponse) → is_top f ≡ true → IsPath s f (f ∷ [])
  below :
      (f p : FolderResponse) (fs : List FolderResponse)
      → is_top f ≡ false
      → get_folder f.parent_folder_id s ≡ (ok p, s)
      → IsPath s p fs
      → IsPath s f (fs ++ f ∷ [])

append_nil : (fs : List FolderResponse) → fs ++ [] ≡ fs
append_nil [] = refl
append_nil (f ∷ fs) = ap (λ ys. f ∷ ys) (append_nil fs)

append_one :
    (fs others : List FolderResponse) (f : FolderResponse)
    → (fs ++ f ∷ []) ++ others ≡ fs ++ (f ∷ others)
append_one [] others f = refl
append_one (x ∷ fs) others f = ap (λ ys. x ∷ ys) (append_one fs others f)

-- One unit of fuel for each folder of the path is enough.
climb-IsPath :
    (s : DocDbs) (fuel : ℕ) (f : FolderResponse) (fs others : List FolderResponse)
    → IsPath s f fs
    → length fs ≤ fuel
    → climb fuel f others s ≡ (ok (fs ++ others), s)
unfolding climb ◌>>=◌ pure
climb-IsPath s zero f _ others (top _ t) le = ground arith
climb-IsPath s (suc fuel) f _ others (top _ t) le = rw t refl
climb-IsPath s zero f _ others (below _ p fs n e path) le =
    ground (arith, length-append fs (f ∷ []))
climb-IsPath s (suc fuel) f _ others (below _ p fs n e path) le =
    rw (n, e)
      (climb-IsPath s fuel p fs (f ∷ others) path (omega (arith, length-append fs (f ∷ [])))
        ∙ ap (λ xs. (ok xs, s)) (sym (append_one fs others f)))

module _ (s : DocDbs) where
  -- A folder that is its own parent has no end.
  climb-loop :
      (fuel : ℕ) (f : FolderResponse) (others : List FolderResponse)
      → is_top f ≡ false
      → get_folder f.parent_folder_id s ≡ (ok f, s)
      → climb fuel f others s ≡ (err out_of_fuel, s)
  unfolding climb ◌>>=◌ raise
  climb-loop zero f others n e = refl
  climb-loop (suc fuel) f others n e = rw (n, e) (climb-loop fuel f (f ∷ others) n e)

  module _ (f : FolderResponse) (d : DriveResponse) (here : get_folder f.folder_id s ≡ (ok f, s))
      (there : get_drive f.drive_id s ≡ (ok d, s)) where
    -- With a unit of fuel for each folder of the path, the path of a folder is returned.
    pub get_path_folder-IsPath :
        (fuel : ℕ) (fs : List FolderResponse)
        → IsPath s f fs
        → length fs ≤ fuel
        → get_path_folder fuel f.folder_id s
          ≡ (ok (record { item = none; folders = fs; drive = d }), s)
    unfolding get_path_folder get_folders_rec ◌>>=◌ pure
    get_path_folder-IsPath fuel fs path le =
        rw (here, there)
          (rw (here, climb-IsPath s fuel f fs [] path le)
            (ap (λ xs. (ok (record { item = none; folders = xs; drive = d }), s)) (append_nil fs)))

    -- The path of a folder that is its own parent is never returned, whatever the fuel.
    pub get_path_folder-loop :
        (fuel : ℕ)
        → is_top f ≡ false
        → f.parent_folder_id ≡ f.folder_id
        → get_path_folder fuel f.folder_id s ≡ (err out_of_fuel, s)
    unfolding get_path_folder get_folders_rec ◌>>=◌ pure
    get_path_folder-loop fuel n e =
        rw (here, there)
          (rw (here, climb-loop fuel f [] n (subst (λ x. get_folder x s ≡ (ok f, s)) (sym e) here)))
