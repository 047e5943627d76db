-- ===== src/Cdn/Graph/Rounds.antt =====
-- One round of `loading_graph`: which symbols it loads and which libraries it leaves.
use mathlib.Core.Path.{subst}
use py_youwol.Prelude.{
  suc, ℕ, String, ◌≡◌, refl, ◌∙◌, Option, none, some, Bool, true, false, not, ◌&&◌, List, [], ◌∷◌,
  map, arith, ◌==◌, eq_iff, inl, inr, Bool-cases, if◌then◌else◌, select, all, All,
}
use py_youwol.Prelude.Dict.{
  Dict, get, put, keys, member, get-put, IsUnique, put-IsUnique, member-put, member-put,
}
use py_youwol.Prelude.Exec.{ok}
use py_youwol.Cdn.Models.{
  LibraryQuery, LibraryResolved, full_exported_symbol, ResolvedQuery, get_query_key,
}
use py_youwol.Cdn.Graph.{
  Item, founds, founds_by_symbol, fulfilled_libs, new_remaining, download_keys_of,
}

-- What the symbol stands for: the dependencies of the last library that has it.
abbrev pub needs : List LibraryResolved → String → Option (List LibraryQuery)
needs [] k = none
needs (d ∷ ds) k = elim (needs ds k) [
  | some qs ↦ some qs
  | none ↦ if full_exported_symbol d == k then some d.dependencies else none
]

abbrev pub has_symbol : String → List LibraryResolved → Bool
has_symbol k libs = elim (needs libs k) [ none ↦ false | some qs ↦ true ]

-- The symbol that a query is resolved to.
abbrev pub target : Dict ResolvedQuery → LibraryQuery → String
target resolutions q = elim (get (get_query_key q) resolutions) [
  | none ↦ ""
  | some r ↦ r.exported_symbol
]

-- Every dependency of the library is resolved.
abbrev pub IsResolved : Dict ResolvedQuery → LibraryResolved → Type 0
IsResolved resolutions d =
    All (λ q. (r : ResolvedQuery) × (get (get_query_key q) resolutions ≡ some r)) d.dependencies

-- The dependencies are among the symbols that `loaded` holds.
abbrev pub ready : Dict ResolvedQuery → (String → Bool) → List LibraryQuery → Bool
ready resolutions loaded = all (λ q. loaded (target resolutions q))

module _ (rs : Dict ResolvedQuery) (download : List String) where
  abbrev flags : List LibraryQuery → List Bool
  flags = map (λ q. member (target rs q) download)

  founds-flags :
      (qs : List LibraryQuery)
      → All (λ q. (r : ResolvedQuery) × (get (get_query_key q) rs ≡ some r)) qs
      → founds rs download qs ≡ ok (flags qs)
  unfolding founds
  founds-flags [] h = refl
  founds-flags (q ∷ qs) h = ground (arith, founds-flags qs h.1)

  abbrev pub table : Dict (List Bool) → List LibraryResolved → Dict (List Bool)
  table acc [] = acc
  table acc (d ∷ ds) = table (put (full_exported_symbol d) (flags d.dependencies) acc) ds

  pub founds_by_symbol-table :
      (acc : Dict (List Bool)) (ds : List LibraryResolved)
      → All (IsResolved rs) ds
      → founds_by_symbol rs download acc ds ≡ ok (table acc ds)
  unfolding founds_by_symbol
  founds_by_symbol-table acc [] h = refl
  founds_by_symbol-table acc (d ∷ ds) h =
      rw (founds-flags d.dependencies h.0)
        (founds_by_symbol-table (put (full_exported_symbol d) (flags d.dependencies) acc) ds h.1)

  get-table :
      (k : String) (acc : Dict (List Bool)) (ds : List LibraryResolved)
      → get k (table acc ds) ≡ elim (needs ds k) [ none ↦ get k acc | some qs ↦ some (flags qs) ]
  get-table k acc [] = refl
  get-table k acc (d ∷ ds) =
      let s = full_exported_symbol d in
      get-table k (put s (flags d.dependencies) acc) ds
      ∙ ground (arith, get-put k s (flags d.dependencies) acc)

  pub table_keys :
      (k : String) (acc : Dict (List Bool)) (ds : List LibraryResolved)
      → member k (keys (table acc ds)) ≡ (if has_symbol k ds then true else member k (keys acc))
  table_keys k acc [] = refl
  table_keys k acc (d ∷ ds) =
      let s = full_exported_symbol d in
      table_keys k (put s (flags d.dependencies) acc) ds
      ∙ ground (arith, member-put k s (flags d.dependencies) acc)

  table-IsUnique :
      (acc : Dict (List Bool)) (ds : List LibraryResolved) → IsUnique acc → IsUnique (table acc ds)
  table-IsUnique acc [] u = u
  table-IsUnique acc (d ∷ ds) u =
      let s = full_exported_symbol d in
      table-IsUnique (put s (flags d.dependencies) acc) ds
        (put-IsUnique s (flags d.dependencies) acc u)

  all-flags :
      (qs : List LibraryQuery) → all (λ b. b) (flags qs) ≡ ready rs (λ k. member k download) qs
  all-flags [] = refl
  all-flags (q ∷ qs) = ground (arith, all-flags qs)

not-member-fulfilled_libs :
    (k : String) (t : Dict (List Bool))
    → member k (keys t) ≡ false
    → member k (fulfilled_libs t) ≡ false
not-member-fulfilled_libs k [] h = refl
not-member-fulfilled_libs k ((j, bs) ∷ t) h = ground (arith, not-member-fulfilled_libs k t)

get-not_member : (k : String) (t : Dict (List Bool)) → member k (keys t) ≡ false → get k t ≡ none
get-not_member k [] h = refl
get-not_member k ((j, bs) ∷ t) h = ground (arith, get-not_member k t)

member-fulfilled_libs :
    (k : String) (t : Dict (List Bool))
    → IsUnique t
    → member k (fulfilled_libs t) ≡ elim (get k t) [ none ↦ false | some bs ↦ all (λ b. b) bs ]
member-fulfilled_libs k [] u = refl
member-fulfilled_libs k ((j, bs) ∷ t) u = elim (Bool-cases (j == k)) [
  | inl e ↦
      let same : j ≡ k = (eq_iff j k).0 e in
      let absent =
        not-member-fulfilled_libs k t (subst (λ y. member y (keys t) ≡ false) same u.0) in
      ground arith
  | inr n ↦ ground (arith, member-fulfilled_libs k t u.1)
]

-- How often a symbol occurs.
abbrev pub times : String → List String → ℕ
times k [] = 0
times k (x ∷ xs) = let n = times k xs in if x == k then suc n else n

times_of_not_member : (k : String) (xs : List String) → member k xs ≡ false → times k xs ≡ 0
times_of_not_member k [] h = refl
times_of_not_member k (x ∷ xs) h = ground (arith, times_of_not_member k xs)

times-fulfilled_libs :
    (k : String) (t : Dict (List Bool))
    → IsUnique t
    → times k (fulfilled_libs t) ≡ (if member k (fulfilled_libs t) then 1 else 0)
times-fulfilled_libs k [] u = refl
times-fulfilled_libs k ((j, bs) ∷ t) u = elim (Bool-cases (j == k)) [
  | inl e ↦
      let same : j ≡ k = (eq_iff j k).0 e in
      let absent =
        not-member-fulfilled_libs k t (subst (λ y. member y (keys t) ≡ false) same u.0) in
      ground (arith, times_of_not_member k (fulfilled_libs t))
  | inr n ↦ ground (arith, times-fulfilled_libs k t u.1)
]

-- The libraries that are left are those whose symbol was not loaded.
pub needs-new_remaining :
    (k : String) (loaded : List String) (libs : List LibraryResolved)
    → needs (new_remaining loaded libs) k ≡ (if member k loaded then none else needs libs k)
needs-new_remaining k loaded [] = ground arith
needs-new_remaining k loaded (d ∷ ds) =
    let s = full_exported_symbol d in ground (arith, needs-new_remaining k loaded ds, eq_iff s k)

pub member-map_symbol :
    (k : String) (libs : List LibraryResolved)
    → member k (map full_exported_symbol libs) ≡ has_symbol k libs
member-map_symbol k [] = refl
member-map_symbol k (d ∷ ds) = ground (arith, member-map_symbol k ds)

pub member-select :
    (k : String) (p : String → Bool) (xs : List String)
    → member k (select p xs) ≡ (member k xs && p k)
member-select k p [] = refl
member-select k p (x ∷ xs) = ground (arith, member-select k p xs, eq_iff x k)

-- What is loaded already: the symbols with an item that no remaining library has.
pub member-download_keys_of :
    (k : String) (items : Dict Item) (libs : List LibraryResolved)
    → member k (download_keys_of items libs) ≡ (member k (keys items) && not (has_symbol k libs))
member-download_keys_of k items libs =
    member-select k _ (keys items) ∙ rw (member-map_symbol k libs)

module _ (rs : Dict ResolvedQuery) (download : List String) (libs : List LibraryResolved) where
  -- The symbols that a round loads.
  abbrev pub loads : List String
  loads = fulfilled_libs (table rs download [] libs)

  -- A round loads the symbols whose dependencies are loaded already, each once.
  pub member-loads :
      (k : String)
      → member k loads
        ≡ elim (needs libs k) [ none ↦ false | some qs ↦ ready rs (λ j. member j download) qs ]
  member-loads k =
      member-fulfilled_libs k (table rs download [] libs) (table-IsUnique rs download [] libs tt)
      ∙ rw (get-table rs download k [] libs) (with_flags (needs libs k))
    where
      with_flags :
          (o : Option (List LibraryQuery))
          → elim (elim o as (λ _. Option (List Bool)) [
            | none ↦ none
            | some qs ↦ some (map (λ q. member (target rs q) download) qs)
          ]) [ none ↦ false | some bs ↦ all (λ b. b) bs ]
            ≡ elim o [ none ↦ false | some qs ↦ ready rs (λ j. member j download) qs ]
      with_flags none = refl
      with_flags (some qs) = all-flags rs download qs

  pub times-loads : (k : String) → times k loads ≡ (if member k loads then 1 else 0)
  times-loads k =
      times-fulfilled_libs k (table rs download [] libs) (table-IsUnique rs download [] libs tt)

  pub member-keys_table :
      (k : String) → member k (keys (table rs download [] libs)) ≡ has_symbol k libs
  member-keys_table k = table_keys rs download k [] libs ∙ ground arith
