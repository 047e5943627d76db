-- ===== src/DocDb/Pairs/Cells.antt =====
-- Documents by a pair of keys: the abstract operations and their laws.
use py_youwol.Prelude.{
  String, ◌≡◌, refl, inl, inr, Bool-cases, Bool, true, false, not, ◌&&◌, Option, none, some, List,
  [], ◌∷◌, arith, ◌==◌, eq_iff, if◌then◌else◌, select, first, All,
}
use mathlib.Core.Path.{subst}
use py_youwol.Prelude.Dict.{get}
use py_youwol.DocDb.Models.{Doc}
use py_youwol.DocDb.Table.Rows.{has_value, upsert}

abbrev pub is_cell : String → String → String → String → Doc → Bool
is_cell pk ck a g d = has_value pk a d && has_value ck g d

abbrev pub IsFreeCell : String → String → String → String → List Doc → Type 0
IsFreeCell pk ck a g = All (λ d. is_cell pk ck a g d ≡ false)

-- The two keys of a document of the owner.
pub record IsCell (pk ck owner : String) (d : Doc) : Type 0 where
  pub first_key : String
  pub second_key : String
  pub first_get : get pk d ≡ some first_key
  pub second_get : get ck d ≡ some second_key
  pub owner_get : get "owner" d ≡ some owner

-- Every document has a pair of keys of its own.
abbrev pub IsPaired : String → String → String → List Doc → Type 0
IsPaired pk ck owner [] = Unit
IsPaired pk ck owner (d ∷ ds) =
    ((c : IsCell pk ck owner d) × IsFreeCell pk ck c.first_key c.second_key ds)
    × IsPaired pk ck owner ds

-- The document under the two keys.
abbrev pub cell : String → String → String → String → List Doc → Option Doc
cell pk ck a g = first (is_cell pk ck a g)

abbrev pub listed : Option Doc → List Doc
listed none = []
listed (some d) = d ∷ []

module _ (pk ck : String) where
  is_cell-eq :
      {owner : String} (d : Doc) (c : IsCell pk ck owner d) (a g : String)
      → is_cell pk ck a g d ≡ (c.first_key == a && c.second_key == g)
  is_cell-eq d c a g = ground (arith, c.first_get, c.second_get)

  keys_of_cell :
      {owner : String} (d : Doc) (c : IsCell pk ck owner d) (a g : String)
      → is_cell pk ck a g d ≡ true
      → (c.first_key ≡ a) × (c.second_key ≡ g)
  keys_of_cell d c a g t =
      ground (arith, is_cell-eq d c a g, eq_iff c.first_key a, eq_iff c.second_key g)

  pub free_of_cell :
      {owner : String} (d : Doc) (c : IsCell pk ck owner d) (a g : String) (ds : List Doc)
      → is_cell pk ck a g d ≡ true
      → IsFreeCell pk ck c.first_key c.second_key ds
      → IsFreeCell pk ck a g ds
  free_of_cell d c a g ds t f =
      let (e, k) = keys_of_cell d c a g t in
      subst (λ b. IsFreeCell pk ck b g ds) e (subst (λ h. IsFreeCell pk ck c.first_key h ds) k f)

  select_of_free :
      (a g : String) (ds : List Doc) → IsFreeCell pk ck a g ds → select (is_cell pk ck a g) ds ≡ []
  select_of_free a g [] f = refl
  select_of_free a g (d ∷ ds) f = rw f.0 (select_of_free a g ds f.1)

  cell_of_free : (a g : String) (ds : List Doc) → IsFreeCell pk ck a g ds → cell pk ck a g ds ≡ none
  cell_of_free a g [] f = refl
  cell_of_free a g (d ∷ ds) f = rw f.0 (cell_of_free a g ds f.1)

  -- At most one document has the keys.
  pub select-cell :
      (owner a g : String) (ds : List Doc)
      → IsPaired pk ck owner ds
      → select (is_cell pk ck a g) ds ≡ listed (cell pk ck a g ds)
  select-cell owner a g [] h = refl
  select-cell owner a g (d ∷ ds) h = elim (Bool-cases (is_cell pk ck a g d)) [
    | inl t ↦ rw (t, select_of_free a g ds (free_of_cell d h.0.0 a g ds t h.0.1)) refl
    | inr n ↦ rw n (select-cell owner a g ds h.1)
  ]

  module _ (owner a g : String) (x : Doc) (ea : get pk x ≡ some a) (eg : get ck x ≡ some g)
      (eo : get "owner" x ≡ some owner) where
    upsert-IsFreeCell :
        (b h : String) (ds : List Doc)
        → (a == b && g == h) ≡ false
        → IsFreeCell pk ck b h ds
        → IsFreeCell pk ck b h (upsert (is_cell pk ck a g) x ds)
    unfolding upsert
    upsert-IsFreeCell b h [] n f = (ground (arith, ea, eg), tt)
    upsert-IsFreeCell b h (d ∷ ds) n f = elim (Bool-cases (is_cell pk ck a g d)) [
      | inl t ↦ rw t ((ground (arith, ea, eg), f.1))
      | inr e ↦ rw e ((f.0, upsert-IsFreeCell b h ds n f.1))
    ]

    pub upsert-IsPaired :
        (ds : List Doc)
        → IsPaired pk ck owner ds
        → IsPaired pk ck owner (upsert (is_cell pk ck a g) x ds)
    unfolding upsert
    upsert-IsPaired [] h = (
      (
        record { first_key = a; second_key = g; first_get = ea; second_get = eg; owner_get = eo },
        tt,
      ),
      tt,
    )
    upsert-IsPaired (d ∷ ds) h = elim (Bool-cases (is_cell pk ck a g d)) [
      | inl t ↦ rw t (
          (
            (
              record {
                first_key = a;
                second_key = g;
                first_get = ea;
                second_get = eg;
                owner_get = eo;
              },
              free_of_cell d h.0.0 a g ds t h.0.1,
            ),
            h.1,
          ))
      | inr n ↦ rw n (
          (
            (
              h.0.0,
              upsert-IsFreeCell h.0.0.first_key h.0.0.second_key ds
                  (ground (
                    arith,
                    is_cell-eq d h.0.0 a g,
                    eq_iff a h.0.0.first_key,
                    eq_iff h.0.0.first_key a,
                    eq_iff g h.0.0.second_key,
                    eq_iff h.0.0.second_key g,
                  ))
                  h.0.1,
            ),
            upsert-IsPaired ds h.1,
          ))
    ]

    -- What stands under a pair of keys after the write.
    pub cell-upsert :
        (b h : String) (ds : List Doc)
        → IsPaired pk ck owner ds
        → cell pk ck b h (upsert (is_cell pk ck a g) x ds)
          ≡ (if a == b && g == h then some x else cell pk ck b h ds)
    unfolding upsert
    cell-upsert b h [] p = ground (arith, ea, eg)
    cell-upsert b h (d ∷ ds) p = elim (Bool-cases (is_cell pk ck a g d)) [
      | inl t ↦
          let (e, k) = keys_of_cell d p.0.0 a g t in
          rw t (ground (arith, ea, eg, is_cell-eq d p.0.0 b h, e, k))
      | inr n ↦ rw n (
          ground (
            arith,
            cell-upsert b h ds p.1,
            is_cell-eq d p.0.0 a g,
            is_cell-eq d p.0.0 b h,
            eq_iff a b,
            eq_iff g h,
            eq_iff p.0.0.first_key a,
            eq_iff p.0.0.first_key b,
            eq_iff p.0.0.second_key g,
            eq_iff p.0.0.second_key h,
          ))
    ]

  select-IsFreeCell :
      (a g : String) (p : Doc → Bool) (ds : List Doc)
      → IsFreeCell pk ck a g ds
      → IsFreeCell pk ck a g (select p ds)
  select-IsFreeCell a g p [] f = tt
  select-IsFreeCell a g p (d ∷ ds) f = ground (arith, select-IsFreeCell a g p ds f.1)

  pub select-IsPaired :
      (owner : String) (p : Doc → Bool) (ds : List Doc)
      → IsPaired pk ck owner ds
      → IsPaired pk ck owner (select p ds)
  select-IsPaired owner p [] h = tt
  select-IsPaired owner p (d ∷ ds) ((c, f), h) = elim (Bool-cases (p d)) [
    | inl t ↦
        rw t
          (((c, select-IsFreeCell c.first_key c.second_key p ds f), select-IsPaired owner p ds h))
    | inr n ↦ rw n (select-IsPaired owner p ds h)
  ]

  -- What stands under a pair of keys after the deletion of another, or of the same.
  pub cell-select :
      (owner a g b h : String) (ds : List Doc)
      → IsPaired pk ck owner ds
      → cell pk ck b h (select (λ d. not (is_cell pk ck a g d)) ds)
        ≡ (if a == b && g == h then none else cell pk ck b h ds)
  cell-select owner a g b h [] p = ground arith
  cell-select owner a g b h (d ∷ ds) ((c, f), p) = ground (
    arith,
    cell-select owner a g b h ds p,
    is_cell-eq d c a g,
    is_cell-eq d c b h,
    eq_iff c.first_key a,
    eq_iff c.first_key b,
    eq_iff a b,
    eq_iff c.second_key g,
    eq_iff c.second_key h,
    eq_iff g h,
  )
