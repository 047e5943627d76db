-- ===== src/TreeDb/Invariant/Every.antt =====
-- What holds of every document of a table holds of every one that is read.
use py_youwol.Prelude.{
  String, ◌≡◌, inl, inr, Bool-cases, Bool, true, false, some, List, [], ◌∷◌, if◌then◌else◌, select,
  first, take, length, ltb, ℕ, zero, suc, All,
}
use mathlib.Core.Path.{subst}
use mathlib.Core.Option.{some-injective}
use py_youwol.Prelude.Exec.{Result, ok, then_ok-eq-ok, ok-injective}
use py_youwol.DocDb.Models.{Doc, QueryBody}
use py_youwol.DocDb.Local.{LocalDocDb, query, filter_docs, order_docs}
use py_youwol.DocDb.Table.Rows.{upsert}

module _ (P : Doc → Type 0) where
  pub upsert-All :
      (p : Doc → Bool) (x : Doc) (ds : List Doc) → P x → All P ds → All P (upsert p x ds)
  unfolding upsert
  upsert-All p x [] px h = (px, tt)
  upsert-All p x (d ∷ ds) px h = elim (Bool-cases (p d)) [
    | inl t ↦ rw t ((px, h.1))
    | inr n ↦ rw n ((h.0, upsert-All p x ds px h.1))
  ]

  pub select-All : (p : Doc → Bool) (ds : List Doc) → All P ds → All P (select p ds)
  select-All p [] h = tt
  select-All p (d ∷ ds) h = elim (Bool-cases (p d)) [
    | inl t ↦ rw t ((h.0, select-All p ds h.1))
    | inr n ↦ rw n (select-All p ds h.1)
  ]

  pub first-All :
      (p : Doc → Bool) (ds : List Doc) (d : Doc)
      → All P ds
      → first p ds ≡ some d
      → P d × (p d ≡ true)
  first-All p [] d h e = cc
  first-All p (x ∷ ds) d h e = elim (Bool-cases (p x)) [
    | inl t ↦ let q = some-injective x d (rw t at e) in (subst P q h.0, subst (λ y. p y ≡ true) q t)
    | inr n ↦ first-All p ds d h.1 (rw n at e)
  ]

  take-All : (n : ℕ) (ds : List Doc) → All P ds → All P (take n ds)
  take-All zero ds h = tt
  take-All (suc n) [] h = tt
  take-All (suc n) (d ∷ ds) h = (h.0, take-All n ds h.1)

  if-All : (m : Bool) (d : Doc) (ds : List Doc) → P d → All P ds → All P (if m then d ∷ ds else ds)
  if-All true d ds hd h = (hd, h)
  if-All false d ds hd h = h

  pub filter_docs-All :
      (p : Doc → Result Bool) (ds r : List Doc) → All P ds → filter_docs p ds ≡ ok r → All P r
  unfolding filter_docs
  filter_docs-All p [] [] h e = tt
  filter_docs-All p [] (y ∷ ys) h e = cc
  filter_docs-All p (d ∷ ds) r h e =
      let (m, e₁, rest) = then_ok-eq-ok (p d) _ e in
      let (ds', e₂, last) = then_ok-eq-ok (filter_docs p ds) _ rest in
      subst (All P) (ok-injective last) (if-All m d ds' h.0 (filter_docs-All p ds ds' h.1 e₂))

  -- A query returns documents of the table.
  pub query-All :
      (body : QueryBody) (owner : String) (db : LocalDocDb) (r : List Doc)
      → db.table_body.clustering_order ≡ []
      → All P db.documents
      → query body owner db ≡ ok r
      → All P r
  unfolding query
  query-All body owner db r o h e = elim (Bool-cases (ltb 1 (length body.query.ordering_clause))) [
    | inl t ↦ cc (rw t at e)
    | inr n ↦
        let (ds, e₁, rest) = then_ok-eq-ok (filter_docs _ db.documents) _ (rw n at e) in
        let (sorted, e₂, last) =
          then_ok-eq-ok (order_docs db.table_body.clustering_order body.query.ordering_clause ds) _
            rest in
        subst (All P) (ok-injective last) (
          take-All body.max_results sorted
            (subst (All P) (ok-injective (rw o at e₂)) (filter_docs-All _ db.documents ds h e₁)))
  ]
