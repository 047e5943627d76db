-- ===== src/DocDb/Pairs/Listing.antt =====
-- A query of local_docdb.py for the partition key alone: all its documents, sorted.
use py_youwol.Prelude.{
  ℕ, zero, suc, ◌≤◌, String, ◌≡◌, refl, sym, ◌∙◌, ap, inl, inr, Bool-cases, Bool, false, List, [],
  ◌∷◌, map, arith, eq_refl, select, any, length, take, All,
}
use py_youwol.Prelude.Exec.{ok}
use py_youwol.DocDb.Models.{Doc, QueryBody, field_of, is_matching}
use py_youwol.DocDb.Local.{
  LocalDocDb, query, matches_all, owner_clause, equals, order_docs, Keyed, with_keys, stays,
  insert_sorted, sort_keyed,
}
use py_youwol.DocDb.Table.Rows.{has_value, key_of_value}
use py_youwol.DocDb.Table.Reads.{filter_docs-select}
use py_youwol.DocDb.Pairs.Cells.{IsCell, IsPaired}
use py_youwol.DocDb.Pairs.Methods.{IsPairTable}

-- What sorting keeps: a test of the documents, a property of them, their number.
module _ (q : Doc → Bool) where
  abbrev any_doc : List Keyed → Bool
  any_doc ks = any (λ k. q k.1) ks

  any-insert_sorted :
      (reverse : Bool) (x : Keyed) (ys : List Keyed)
      → any_doc (insert_sorted reverse x ys) ≡ any_doc (x ∷ ys)
  unfolding insert_sorted
  any-insert_sorted reverse x [] = refl
  any-insert_sorted reverse x (y ∷ ys) = ground (arith, any-insert_sorted reverse x ys)

  any-sort_keyed : (reverse : Bool) (xs : List Keyed) → any_doc (sort_keyed reverse xs) ≡ any_doc xs
  unfolding sort_keyed
  any-sort_keyed reverse [] = refl
  any-sort_keyed reverse (x ∷ xs) =
      any-insert_sorted reverse x (sort_keyed reverse xs) ∙ rw (any-sort_keyed reverse xs) refl

  any-map : (ks : List Keyed) → any q (map (λ k. k.1) ks) ≡ any_doc ks
  any-map [] = refl
  any-map (k ∷ ks) = rw (any-map ks) refl

length-insert_sorted :
    (reverse : Bool) (x : Keyed) (ys : List Keyed)
    → length (insert_sorted reverse x ys) ≡ suc (length ys)
unfolding insert_sorted
length-insert_sorted reverse x [] = refl
length-insert_sorted reverse x (y ∷ ys) = ground (arith, length-insert_sorted reverse x ys)

length-sort_keyed : (reverse : Bool) (xs : List Keyed) → length (sort_keyed reverse xs) ≡ length xs
unfolding sort_keyed
length-sort_keyed reverse [] = refl
length-sort_keyed reverse (x ∷ xs) =
    length-insert_sorted reverse x (sort_keyed reverse xs) ∙ ap suc (length-sort_keyed reverse xs)

length-map : (ks : List Keyed) → length (map (λ k. k.1) ks) ≡ length ks
length-map [] = refl
length-map (k ∷ ks) = ap suc (length-map ks)

take_all : (n : ℕ) (ds : List Doc) → length ds ≤ n → take n ds ≡ ds
take_all zero [] h = refl
take_all zero (d ∷ ds) h = absurd (omega arith)
take_all (suc n) [] h = refl
take_all (suc n) (d ∷ ds) h = ap (λ l. d ∷ l) (take_all n ds (omega arith))

module _ (P : Doc → Type 0) where
  All-insert_sorted :
      (reverse : Bool) (x : Keyed) (ys : List Keyed)
      → P x.1
      → All (λ k. P k.1) ys
      → All (λ k. P k.1) (insert_sorted reverse x ys)
  unfolding insert_sorted
  All-insert_sorted reverse x [] p h = (p, tt)
  All-insert_sorted reverse x (y ∷ ys) p h = elim (Bool-cases (stays reverse x.0 y.0)) [
    | inl t ↦ rw t ((p, h))
    | inr n ↦ rw n ((h.0, All-insert_sorted reverse x ys p h.1))
  ]

  All-map : (ks : List Keyed) → All (λ k. P k.1) ks → All P (map (λ k. k.1) ks)
  All-map [] h = tt
  All-map (k ∷ ks) h = (h.0, All-map ks h.1)

  All-sort_keyed :
      (reverse : Bool) (xs : List Keyed)
      → All (λ k. P k.1) xs
      → All (λ k. P k.1) (sort_keyed reverse xs)
  unfolding sort_keyed
  All-sort_keyed reverse [] h = tt
  All-sort_keyed reverse (x ∷ xs) h =
      All-insert_sorted reverse x (sort_keyed reverse xs) h.0 (All-sort_keyed reverse xs h.1)

module _ (pk ck owner a : String) where
  -- A document of the owner with the partition key `a`.
  abbrev pub IsOf : Doc → Type 0
  IsOf d = (c : IsCell pk ck owner d) × (c.first_key ≡ a)

  selected-IsOf : (ds : List Doc) → IsPaired pk ck owner ds → All IsOf (select (has_value pk a) ds)
  selected-IsOf [] h = tt
  selected-IsOf (d ∷ ds) h = elim (Bool-cases (has_value pk a d)) [
    | inl t ↦
        rw t
          (((h.0.0, key_of_value pk a h.0.0.first_key d h.0.0.first_get t), selected-IsOf ds h.1))
    | inr n ↦ rw n (selected-IsOf ds h.1)
  ]

  matches-partition :
      (ds : List Doc)
      → IsPaired pk ck owner ds
      → All
          (λ d. matches_all (owner_clause owner ∷ equals (pk, a) ∷ []) d ≡ ok (has_value pk a d))
          ds
  unfolding matches_all is_matching
  matches-partition [] h = tt
  matches-partition (d ∷ ds) h =
      (ground (arith, h.0.0.first_get, h.0.0.owner_get, eq_refl owner), matches-partition ds h.1)

  -- The documents with their clustering keys.
  with_keys-IsOf :
      (ds : List Doc)
      → All IsOf ds
      → (ks : List Keyed) × (with_keys ck ds ≡ ok ks)
        × (map (λ k. k.1) ks ≡ ds)
        × All (λ k. IsOf k.1) ks
  unfolding with_keys
  with_keys-IsOf [] h = ([], refl, refl, tt)
  with_keys-IsOf (d ∷ ds) h =
      let (ks, e, m, k) = with_keys-IsOf ds h.1 in
      (
        (h.0.0.second_key, d) ∷ ks,
        rw (field_of, h.0.0.second_get, e) refl,
        ap (λ l. d ∷ l) m,
        (h.0, k),
      )

  abbrev pub partition_query : ℕ → QueryBody
  partition_query n = record {
    max_results = n;
    select_clauses = [];
    query = record { where_clause = equals (pk, a) ∷ []; ordering_clause = [] };
  }

  -- The query returns the documents with the partition key in some order, where they are not more
  -- than its limit.
  pub query-partition :
      (n : ℕ) (db : LocalDocDb)
      → IsPairTable pk ck owner db
      → length (select (has_value pk a) db.documents) ≤ n
      → (docs : List Doc) × (query (partition_query n) owner db ≡ ok docs)
        × All IsOf docs
        × ((q : Doc → Bool) → any q docs ≡ any q (select (has_value pk a) db.documents))
  unfolding query order_docs
  query-partition n db t le =
      let of = selected-IsOf db.documents t.paired in
      let (ks, e, m, k) = with_keys-IsOf (select (has_value pk a) db.documents) of in
      let sorted = sort_keyed false ks in
      let len : length (map (λ x. x.1) sorted) ≤ n =
        rw (length-map sorted ∙ length-sort_keyed false ks ∙ sym (length-map ks) ∙ ap length m)
          le in
      (
        map (λ x. x.1) sorted,
        rw
            (
              filter_docs-select _ (has_value pk a) db.documents
                  (matches-partition db.documents t.paired),
              t.pairs.order,
              e,
            )
            (ap ok (take_all n (map (λ x. x.1) sorted) len)),
        All-map IsOf sorted (All-sort_keyed IsOf false ks k),
        λ q. any-map q sorted ∙ any-sort_keyed q false ks ∙ sym (any-map q ks) ∙ ap (any q) m,
      )
