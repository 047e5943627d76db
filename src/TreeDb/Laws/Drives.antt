-- ===== src/TreeDb/Laws/Drives.antt =====
-- `delete_drive`: only a drive without content is deleted.
use py_youwol.Prelude.{
  String, not, ◌≡◌, refl, ◌∙◌, sym, ap, some, List, [], ◌∷◌, ◌+◌, ◌&&◌, true, inl, inr, Bool-cases,
  ltb, ◌==◌, if◌then◌else◌, length, arith,
}
use mathlib.Core.Path.{subst}
use py_youwol.Prelude.Dict.{get}
use py_youwol.Prelude.Exec.{Result, ok, err, http, raise, ◌>>=◌}
use py_youwol.DocDb.Models.{Doc}
use py_youwol.TreeDb.Models.{Codec, DocDbs, ChildrenResponse}
use py_youwol.TreeDb.Access.{look, drives, db_get}
use py_youwol.TreeDb.Listing.{entities_children, list_deleted}
use py_youwol.TreeDb.Handlers.Drives.{delete_drive}
use py_youwol.TreeDb.Invariant.Tables.{IsTree}
use py_youwol.TreeDb.Invariant.Rules.{db_get-IsDoc}
use py_youwol.DocDb.Parse.Laws.{IsPlain}
use py_youwol.TreeDb.Laws.Content.{is_empty, no_content, has_content, no_content-has_content}
use py_youwol.TreeDb.Laws.Store.{
  doc_at, get_document_lem, db_get_lem, removed, db_delete_lem, db_get-removed,
}

count_of_content :
    {A B C D : Type 0} (as' : List A) (bs : List B) (cs : List C) (ds : List D)
    → ltb 0 (length as' + length bs + length cs + length ds)
      ≡ not ((is_empty as' && is_empty bs) && (is_empty cs && is_empty ds))
count_of_content [] [] [] [] = refl
count_of_content [] [] [] (d ∷ ds) = ground arith
count_of_content [] [] (c ∷ cs) ds = ground arith
count_of_content [] (b ∷ bs) cs ds = ground arith
count_of_content (a ∷ as') bs cs ds = ground arith

-- What `out` says of the deletion of a drive: it succeeds, the drive is no longer found, and every
-- other drive is found as before.
abbrev pub Drops : String → DocDbs → Result (Unit {0}) × DocDbs → Type 0
Drops id s out =
    (out.0 ≡ ok tt)
    × ((j : String)
        → (db_get drives "drive_id" j out.1).0
          ≡ (if id == j then err (http 404) else (db_get drives "drive_id" j s).0))

removed-Drops :
    (id : String) (s : DocDbs) (d : Doc)
    → IsTree s
    → get "drive_id" d ≡ some id
    → Drops id s (ok tt, removed drives d s)
unfolding db_get look
removed-Drops id s d h key =
    (refl, λ j. db_get-removed drives d id s h key j ∙ rw (get_document_lem drives j s h))

delete_drive-empty :
    (c : Codec) (id : String) (s : DocDbs) (content trash : ChildrenResponse) (d : Doc)
    → IsTree s
    → entities_children c id s ≡ (ok content, s)
    → list_deleted c id s ≡ (ok trash, s)
    → doc_at drives id s ≡ some d
    → get "drive_id" d ≡ some id
    → no_content content trash ≡ true
    → delete_drive c id s ≡ (ok tt, removed drives d s)
unfolding delete_drive ◌>>=◌
delete_drive-empty c id s content trash d h e₁ e₂ there key t =
    rw (e₁, e₂)
      (rw (count_of_content content.folders content.items trash.items trash.folders, t)
        (rw (db_get_lem drives id s h, there, db_delete_lem drives d id s h key)))

module _ (c : Codec) (id : String) (s : DocDbs) (h : IsTree s) (plain : IsPlain id) where
  -- On well-formed tables, for a drive that is there, under an identifier without the characters
  -- `@ # , < >`, and whose content and trash the listings can show: if a folder or an item lies at
  -- its root, or one of the first hundred documents of its trash is of a folder or of an item, its
  -- deletion raises a 428 and changes nothing; otherwise it succeeds, the drive is no longer found,
  -- and every other drive is found as before.
  pub delete_drive-content :
      (content trash : ChildrenResponse) (d : Doc)
      → entities_children c id s ≡ (ok content, s)
      → list_deleted c id s ≡ (ok trash, s)
      → doc_at drives id s ≡ some d
      → (if has_content id s
          then (delete_drive c id s ≡ (err (http 428), s))
          else Drops id s (delete_drive c id s))
  unfolding delete_drive ◌>>=◌ raise
  delete_drive-content content trash d e₁ e₂ there =
      let n = no_content-has_content c id s h plain content trash e₁ e₂ in
      elim (Bool-cases (has_content id s)) [
        | inl t ↦ rw t (
            rw (e₁, e₂)
              (rw (count_of_content content.folders content.items trash.items trash.folders, n, t)))
        | inr f ↦ rw f (
            let key =
              (db_get-IsDoc drives id s h d
                (ap (λ (x : Result Doc × DocDbs). x.0) (db_get_lem drives id s h) ∙ rw there)).1 in
            let empty : no_content content trash ≡ true = n ∙ rw f refl in
            subst (Drops id s)
              (sym (delete_drive-empty c id s content trash d h e₁ e₂ there key empty))
              (removed-Drops id s d h key))
      ]
