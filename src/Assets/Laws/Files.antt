-- ===== src/Assets/Laws/Files.antt =====
-- What `delete_asset` of assets.py removes of the files.
use py_youwol.Prelude.{
  String, Bool, true, false, inl, inr, Bool-cases, ◌≡◌, refl, ◌∙◌, ap, not, ◌&&◌, ◌||◌, List, [],
  ◌∷◌, arith, All, ◌==◌, eq_iff, eq_refl, select, any,
}
use py_youwol.Prelude.Text.{contains, contains-append}
use py_youwol.Prelude.Dict.{member}
use py_youwol.Prelude.Exec.{ok, pure, ◌>>=◌}
use py_youwol.Assets.Models.{Configuration}
use py_youwol.Assets.Handlers.{metadata_of, remove_object, remove_objects}

-- No path occurs twice.
abbrev pub IsApart : List String → Type 0
IsApart [] = Unit
IsApart (p ∷ ps) = (member p ps ≡ false) × IsApart ps

-- The path of metadata.
abbrev pub is_metadata : String → Bool
is_metadata path = contains ".metadata.json" path

pub is_metadata-metadata_of : (p : String) → is_metadata (metadata_of p) ≡ true
is_metadata-metadata_of p = contains-append "." "metadata.json" p

-- The path is the object's, or that of its metadata.
abbrev pub hits : String → String → Bool
hits q p = q == p || q == metadata_of p

abbrev pub removed : List String → List String → List String
removed [] files = files
removed (p ∷ ps) files = removed ps (select (λ q. not (hits q p)) files)

pub member-select :
    (test : String → Bool) (p : String) (files : List String)
    → member p (select test files) ≡ (member p files && test p)
member-select test p [] = refl
member-select test p (f ∷ files) = elim (Bool-cases (f == p)) [
  | inl t ↦ rw ((eq_iff f p).0 t) (ground (arith, eq_refl p, member-select test p files))
  | inr n ↦ ground (arith, member-select test p files)
]

pub select-IsApart :
    (test : String → Bool) (files : List String) → IsApart files → IsApart (select test files)
select-IsApart test [] h = tt
select-IsApart test (f ∷ files) (n, h) = elim (Bool-cases (test f)) [
  | inl t ↦ rw t ((member-select test f files ∙ rw n refl, select-IsApart test files h))
  | inr e ↦ rw e (select-IsApart test files h)
]

-- An object that is no metadata is not hit by another.
pub not_hit : (q p : String) → is_metadata q ≡ false → (p == q) ≡ false → hits q p ≡ false
not_hit q p plain other = elim (Bool-cases (q == metadata_of p)) [
  | inl t ↦ cc (is_metadata-metadata_of p, plain, ap is_metadata ((eq_iff q (metadata_of p)).0 t))
  | inr n ↦ ground (arith, eq_iff q p, eq_iff p q)
]

still_there :
    (p : String) (ps files : List String)
    → member p ps ≡ false
    → All (λ q. (member q files ≡ true) × (is_metadata q ≡ false)) ps
    → All (λ q. (member q (select (λ r. not (hits r p)) files) ≡ true) × (is_metadata q ≡ false)) ps
still_there p [] files n h = tt
still_there p (q ∷ ps) files n ((there, plain), h) = elim (Bool-cases (q == p)) [
  | inl t ↦ cc (rw t at n)
  | inr e ↦ (
    (
      member-select (λ r. not (hits r p)) q files
          ∙ rw (there, not_hit q p plain (ground (arith, eq_iff p q, eq_iff q p))) refl,
      plain,
    ),
    still_there p ps files (rw e at n) h,
  )
]

-- Objects that are there, no two the same and none of them metadata, are removed one after the other.
pub remove_objects_lem :
    (ps : List String) (s : Configuration)
    → IsApart ps
    → All (λ q. (member q s.file_system ≡ true) × (is_metadata q ≡ false)) ps
    → remove_objects ps s ≡ (ok tt, record s { file_system = removed ps s.file_system })
unfolding remove_objects remove_object ◌>>=◌ pure
remove_objects_lem [] s a h = refl
remove_objects_lem (p ∷ ps) s (n, a) ((there, plain), h) = rw there (
    remove_objects_lem ps (record s { file_system = select (λ q. not (hits q p)) s.file_system }) a
      (still_there p ps s.file_system n h))

pub member-removed :
    (ps files : List String) (q : String)
    → member q (removed ps files) ≡ (member q files && not (any (hits q) ps))
member-removed [] files q = ground arith
member-removed (p ∷ ps) files q =
    member-removed ps (select (λ r. not (hits r p)) files) q
    ∙ rw (member-select (λ r. not (hits r p)) q files) (ground arith)
