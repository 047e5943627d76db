-- ===== src/DocDb/Table/Rows.antt =====
-- Documents by key: the abstract operations and their laws.
use py_youwol.Prelude.{
  String, ◌≡◌, refl, inl, inr, Bool-cases, Option-cases, Bool, true, false, not, ◌&&◌, Option, none,
  some, List, [], ◌∷◌, arith, ◌==◌, eq_iff, if◌then◌else◌, select, first, All,
}
use mathlib.Core.Path.{subst}
use py_youwol.Prelude.Dict.{get}
use py_youwol.DocDb.Models.{Doc}

abbrev pub has_value : String → String → Doc → Bool
has_value column v d = elim (get column d) [ none ↦ false | some w ↦ w == v ]

abbrev pub is_row : String → String → String → Doc → Bool
is_row pk owner k d = has_value "owner" owner d && has_value pk k d

abbrev pub HasColumn : Doc → String → Type 0
HasColumn d c = (v : String) × (get c d ≡ some v)

abbrev pub IsFresh : String → String → List Doc → Type 0
IsFresh pk k = All (λ d. has_value pk k d ≡ false)

-- Every document has a key of its own.
abbrev pub IsKeyed : String → List Doc → Type 0
IsKeyed pk [] = Unit
IsKeyed pk (d ∷ ds) = ((k : String) × (get pk d ≡ some k) × IsFresh pk k ds) × IsKeyed pk ds

-- The document takes the place of the one with its key, or comes last.
unfoldable pub upsert : (Doc → Bool) → Doc → List Doc → List Doc
upsert p x [] = x ∷ []
upsert p x (d ∷ ds) = if p d then x ∷ ds else d ∷ upsert p x ds

-- The document that a reader of `owner` finds under the key `k`.
abbrev pub row : String → String → String → List Doc → Option Doc
row pk owner k = first (is_row pk owner k)

pub key_of_value : (pk k j : String) (d : Doc) → get pk d ≡ some j → has_value pk k d ≡ true → j ≡ k
key_of_value pk k j d e t = ground (arith, eq_iff j k)

key-ne_of_value :
    (pk k j : String) (d : Doc) → get pk d ≡ some j → has_value pk k d ≡ false → (k == j) ≡ false
key-ne_of_value pk k j d e t = ground (arith, eq_iff j k, eq_iff k j)

pub IsFresh-eq :
    (pk : String) {j k : String} (ds : List Doc) → j ≡ k → IsFresh pk j ds → IsFresh pk k ds
IsFresh-eq pk ds e f = subst (λ y. IsFresh pk y ds) e f

row_of_fresh : (pk owner j : String) (ds : List Doc) → IsFresh pk j ds → row pk owner j ds ≡ none
row_of_fresh pk owner j [] f = refl
row_of_fresh pk owner j (d ∷ ds) f = ground (arith, row_of_fresh pk owner j ds f.1)

module _ (pk k : String) (x : Doc) (key : get pk x ≡ some k) where
  pub upsert-IsFresh :
      (j : String) (ds : List Doc)
      → (k == j) ≡ false
      → IsFresh pk j ds
      → IsFresh pk j (upsert (has_value pk k) x ds)
  unfolding upsert
  upsert-IsFresh j [] n f = (ground arith, tt)
  upsert-IsFresh j (d ∷ ds) n f = ground (arith, upsert-IsFresh j ds n f.1)

  pub upsert-IsKeyed : (ds : List Doc) → IsKeyed pk ds → IsKeyed pk (upsert (has_value pk k) x ds)
  unfolding upsert
  upsert-IsKeyed [] h = ((k, key, tt), tt)
  upsert-IsKeyed (d ∷ ds) h = elim (Bool-cases (has_value pk k d)) [
    | inl t ↦ rw t (((k, key, IsFresh-eq pk ds (key_of_value pk k h.0.0 d h.0.1 t) h.0.2), h.1))
    | inr n ↦ rw n (
        (
          (h.0.0, h.0.1, upsert-IsFresh h.0.0 ds (key-ne_of_value pk k h.0.0 d h.0.1 n) h.0.2),
          upsert-IsKeyed ds h.1,
        ))
  ]

  -- What a reader finds after the write.
  pub row-upsert :
      (owner j : String) (ds : List Doc)
      → IsKeyed pk ds
      → row pk owner j (upsert (has_value pk k) x ds) ≡ (
          if k == j
          then (if has_value "owner" owner x then some x else none)
          else row pk owner j ds)
  unfolding upsert
  row-upsert owner j [] h = ground arith
  row-upsert owner j (d ∷ ds) h = elim (Bool-cases (has_value pk k d)) [
    | inl t ↦
        let e = key_of_value pk k h.0.0 d h.0.1 t in
        rw t (ground (arith, eq_iff k j, row_of_fresh pk owner k ds (IsFresh-eq pk ds e h.0.2)))
    | inr n ↦
        let ne = key-ne_of_value pk k h.0.0 d h.0.1 n in
        rw n (ground (arith, eq_iff k j, eq_iff k h.0.0, eq_iff h.0.0 j, row-upsert owner j ds h.1))
  ]

select-IsFresh :
    (pk k : String) (p : Doc → Bool) (ds : List Doc) → IsFresh pk k ds → IsFresh pk k (select p ds)
select-IsFresh pk k p [] f = tt
select-IsFresh pk k p (d ∷ ds) f = ground (arith, select-IsFresh pk k p ds f.1)

pub select-IsKeyed :
    (pk : String) (p : Doc → Bool) (ds : List Doc) → IsKeyed pk ds → IsKeyed pk (select p ds)
select-IsKeyed pk p [] h = tt
select-IsKeyed pk p (d ∷ ds) ((k, e, f), h) = elim (Bool-cases (p d)) [
  | inl t ↦ rw t (((k, e, select-IsFresh pk k p ds f), select-IsKeyed pk p ds h))
  | inr n ↦ rw n (select-IsKeyed pk p ds h)
]

value_unique :
    (c k j : String) (d : Doc) → has_value c k d ≡ true → has_value c j d ≡ true → (k == j) ≡ true
value_unique c k j d s t = elim (Option-cases (get c d)) [
  | inl e ↦ ground arith
  | inr (w, e) ↦ ground (arith, eq_iff w k, eq_iff w j, eq_iff k j)
]

row_unique :
    (pk owner k o j : String) (d : Doc)
    → is_row pk owner k d ≡ true
    → is_row pk o j d ≡ true
    → (owner == o && k == j) ≡ true
row_unique pk owner k o j d s t =
    ground (arith, value_unique "owner" owner o d, value_unique pk k j d)

-- What a reader finds after the document of `owner` under `k` is gone.
pub row-delete :
    (pk owner k o j : String) (ds : List Doc)
    → row pk o j (select (λ d. not (is_row pk owner k d)) ds)
      ≡ (if (owner == o) && (k == j) then none else row pk o j ds)
row-delete pk owner k o j [] = ground arith
row-delete pk owner k o j (d ∷ ds) = elim (Bool-cases (is_row pk owner k d)) [
  | inl t ↦ rw t (ground (arith, row-delete pk owner k o j ds, row_unique pk owner k o j d t))
  | inr n ↦ rw n (ground (arith, row-delete pk owner k o j ds, eq_iff owner o, eq_iff k j))
]
