-- ===== src/TreeDb/Laws/Parent.antt =====
-- `get_parent`: the folder with an identifier, or else the drive.
use py_youwol.Prelude.{String, ◌≡◌, refl, false, Option, none, some, List, [], ◌∷◌}
use py_youwol.Prelude.Exec.{Result, pure, raise, ◌>>=◌}
use py_youwol.Prelude.Text.{has}
use py_youwol.Prelude.{first, take, select, ◌++◌, Bool, inl, inr, Bool-cases}
use py_youwol.DocDb.Parse.Laws.{IsPlain}
use py_youwol.TreeDb.Access.{drives, first_or_404}
use py_youwol.TreeDb.Laws.Store.{db_query_lem}
use py_youwol.DocDb.Models.{Doc}
use py_youwol.DocDb.Table.Reads.{found}
use py_youwol.TreeDb.Models.{DocDbs}
use py_youwol.TreeDb.Access.{folders, get_parent}
use py_youwol.TreeDb.Invariant.Tables.{IsTree}
use py_youwol.TreeDb.Laws.Store.{doc_at}

-- The folder with the identifier, or else the drive.
abbrev pub either : Option Doc → Option Doc → Option Doc
either (some d) o = some d
either none o = o

abbrev pub parent_at : String → DocDbs → Option Doc
parent_at id s = either (doc_at folders id s) (doc_at drives id s)

abbrev pub answer : Option Doc → DocDbs → Result Doc × DocDbs
answer o s = (found o, s)

head_of_one :
    (q : Doc → Bool) (ys : List Doc) (s : DocDbs)
    → first_or_404 (take 1 (select q ys)) s ≡ (found (first q ys), s)
unfolding pure raise
head_of_one q [] s = refl
head_of_one q (y ∷ ys) s = elim (Bool-cases (q y)) [
  | inl t ↦ rw t refl
  | inr n ↦ rw n (head_of_one q ys s)
]

head_of_two :
    (p q : Doc → Bool) (xs ys : List Doc) (s : DocDbs)
    → first_or_404 (take 1 (select p xs) ++ take 1 (select q ys)) s
      ≡ (found (either (first p xs) (first q ys)), s)
unfolding pure
head_of_two p q [] ys s = head_of_one q ys s
head_of_two p q (x ∷ xs) ys s = elim (Bool-cases (p x)) [
  | inl t ↦ rw t refl
  | inr n ↦ rw n (head_of_two p q xs ys s)
]

pub folder_id-IsPlain : IsPlain "folder_id"
unfolding has
folder_id-IsPlain = record {
  no_at = refl;
  no_hash = refl;
  no_comma = refl;
  no_less = refl;
  no_greater = refl;
}

pub drive_id-IsPlain : IsPlain "drive_id"
unfolding has
drive_id-IsPlain = record {
  no_at = refl;
  no_hash = refl;
  no_comma = refl;
  no_less = refl;
  no_greater = refl;
}

pub lacks_equals : (has b'=' "folder_id" ≡ false) × (has b'=' "drive_id" ≡ false)
unfolding has
lacks_equals = (refl, refl)

pub get_parent_lem :
    (id : String) (s : DocDbs)
    → IsTree s
    → IsPlain id
    → get_parent id s ≡ (found (parent_at id s), s)
unfolding get_parent ◌>>=◌
get_parent_lem id s h p =
    rw
      (
        db_query_lem folders "folder_id" id 1 s h folder_id-IsPlain lacks_equals.0 p refl,
        db_query_lem drives "drive_id" id 1 s h drive_id-IsPlain lacks_equals.1 p refl,
      )
      (head_of_two _ _ s.folders_db.documents s.drives_db.documents s)
