-- ===== src/Cdn/Graph/Acyclic.antt =====
-- Libraries without a cycle are loaded.
use py_youwol.Prelude.{
  ℕ, zero, suc, ◌<◌, String, ◌≡◌, ◌⊎◌, inl, inr, Option-cases, Bool-cases, some, Bool, true, false,
  List, [], ◌∷◌, arith, length, All,
}
use py_youwol.Prelude.Dict.{Dict, member, member_of_get}
use py_youwol.Prelude.Exec.{ok}
use py_youwol.Cdn.Models.{full_exported_symbol, LibraryQuery, LibraryResolved, ResolvedQuery}
use py_youwol.Cdn.Graph.{Item, download_keys_of, loading_graph}
use py_youwol.Cdn.Graph.Rounds.{
  needs, has_symbol, target, IsResolved, ready, member-download_keys_of,
}
use py_youwol.Cdn.Graph.Order.{HaveItems, needs_of_each, Loads, IsStuck}
use py_youwol.Cdn.Graph.Correct.{loading_graph_lem}

-- A dependency of the library `k`: a library of a lower rank, or one that is loaded already.
abbrev pub IsBelow :
    Dict ResolvedQuery
    → Dict Item
    → List LibraryResolved
    → (String → ℕ)
    → String
    → LibraryQuery
    → Type 0
IsBelow rs items libs rank k q =
    ((has_symbol (target rs q) libs ≡ true) × (rank (target rs q) < rank k))
    ⊎ (member (target rs q) (download_keys_of items libs) ≡ true)

-- No cycle: every dependency is below its library.
abbrev pub IsRanked : Dict ResolvedQuery → Dict Item → List LibraryResolved → (String → ℕ) → Type 0
IsRanked rs items libs rank =
    (k : String) (qs : List LibraryQuery)
    → needs libs k ≡ some qs
    → All (IsBelow rs items libs rank k) qs

-- The rank of each library and of what it depends on.
pub rank_each :
    (rs : Dict ResolvedQuery) (items : Dict Item) (libs : List LibraryResolved) (rank : String → ℕ)
    → All (λ d. All (IsBelow rs items libs rank (full_exported_symbol d)) d.dependencies) libs
    → IsRanked rs items libs rank
rank_each rs items libs rank h = needs_of_each (λ k. All (IsBelow rs items libs rank k)) libs h

-- A dependency that is not loaded.
waiting :
    (rs : Dict ResolvedQuery) (f : String → Bool) (P : LibraryQuery → Type 0)
    (qs : List LibraryQuery)
    → ready rs f qs ≡ false
    → All P qs
    → (q : LibraryQuery) × (f (target rs q) ≡ false) × P q
waiting rs f P [] r h = cc
waiting rs f P (q ∷ qs) r h = elim (Bool-cases (f (target rs q))) [
  | inl t ↦ waiting rs f P qs (ground arith) h.1
  | inr n ↦ (q, n, h.0)
]

module _ (rs : Dict ResolvedQuery) (items : Dict Item) (libs : List LibraryResolved)
    (there : HaveItems items libs) (rank : String → ℕ) (ranked : IsRanked rs items libs rank)
    (s : IsStuck rs items libs) where
  libs_of_left : (k : String) → has_symbol k s.left ≡ true → has_symbol k libs ≡ true
  libs_of_left k h = elim (Option-cases (needs s.left k)) [
    | inl e ↦ cc (rw (e, has_symbol) at h)
    | inr (qs, e) ↦ ground (arith, s.part k qs e)
  ]

  -- What a library that is left waits for is left too.
  left_of_below :
      (k : String) (q : LibraryQuery)
      → member (target rs q) (download_keys_of items s.left) ≡ false
      → IsBelow rs items libs rank k q
      → (has_symbol (target rs q) s.left ≡ true) × (rank (target rs q) < rank k)
  left_of_below k q m (inl (in_libs, lower)) =
      let (i, e) = there (target rs q) in_libs in
      (
        ground (
          arith,
          member_of_get (target rs q) i items e,
          member-download_keys_of (target rs q) items s.left,
        ),
        lower,
      )
  left_of_below k q m (inr loaded) = ground (
    arith,
    libs_of_left (target rs q),
    member-download_keys_of (target rs q) items s.left,
    member-download_keys_of (target rs q) items libs,
  )

  no_cycle : (n : ℕ) (k : String) → has_symbol k s.left ≡ true → rank k < n → ⊥
  no_cycle zero k h lt = elim lt [ ]
  no_cycle (suc n) k h lt = elim (Option-cases (needs s.left k)) [
    | inl e ↦ cc (rw (e, has_symbol) at h)
    | inr (qs, e) ↦
        let (q, m, below) =
          waiting rs (λ j. member j (download_keys_of items s.left)) (IsBelow rs items libs rank k)
            qs (s.waits k qs e) (ranked k qs (s.part k qs e)) in
        let (in_left, lower) = left_of_below k q m below in
        no_cycle n (target rs q) in_left (omega arith)
  ]

-- If the dependencies of the libraries have no cycle, shown by a rank, then `loading_graph` returns
-- layers: every library is in one of them, once, behind all that it depends on.
pub loading_graph-IsRanked :
    (rs : Dict ResolvedQuery) (items : Dict Item) (fuel : ℕ) (libs : List LibraryResolved)
    (rank : String → ℕ)
    → All (IsResolved rs) libs
    → HaveItems items libs
    → IsRanked rs items libs rank
    → length libs < fuel
    → (response : List (List Item)) × (loading_graph fuel libs items rs ≡ ok response)
      × Loads rs items libs response
loading_graph-IsRanked rs items fuel libs rank resolved there ranked enough =
    elim (loading_graph_lem rs items fuel libs resolved there enough) [
      | inl answer ↦ answer
      | inr (p, e, s) ↦ absurd (
          no_cycle rs items libs there rank ranked s (suc (rank s.first)) s.first s.present
            (omega arith))
    ]
