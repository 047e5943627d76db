-- ===== src/Cdn/Graph/Correct.antt =====
-- `loading_graph` ends, and returns the layers of an order if there is one.
use py_youwol.Prelude.{
  ℕ, zero, suc, ◌<◌, String, List, [], ◌∷◌, arith, inl, inr, Bool-cases, length, All,
}
use py_youwol.Prelude.Dict.{Dict, member}
use py_youwol.Cdn.Models.{LibraryResolved, full_exported_symbol, ResolvedQuery}
use py_youwol.Cdn.Graph.{Item, new_remaining, download_keys_of, loading_graph}
use py_youwol.Cdn.Graph.Rounds.{IsResolved, founds_by_symbol-table, loads}
use py_youwol.Cdn.Graph.Order.{HaveItems}
use py_youwol.Cdn.Graph.Step.{Answers, left-HaveItems, round_answer}

-- The resolved libraries that are left are resolved.
select-IsResolved :
    (rs : Dict ResolvedQuery) (loaded : List String) (libs : List LibraryResolved)
    → All (IsResolved rs) libs
    → All (IsResolved rs) (new_remaining loaded libs)
select-IsResolved rs loaded [] h = tt
select-IsResolved rs loaded (d ∷ ds) h =
    elim (Bool-cases (member (full_exported_symbol d) loaded)) [
      | inl t ↦ rw t (select-IsResolved rs loaded ds h.1)
      | inr n ↦ rw n ((h.0, select-IsResolved rs loaded ds h.1))
    ]

-- For libraries whose dependencies are resolved and that have items, with more fuel than there are
-- libraries, `loading_graph` returns layers, in which every library is once, behind all that it
-- depends on, or raises `CircularDependencies`, and then some of the libraries all depend on one of
-- them or on one without an item.
pub loading_graph_lem :
    (rs : Dict ResolvedQuery) (items : Dict Item) (fuel : ℕ) (libs : List LibraryResolved)
    → All (IsResolved rs) libs
    → HaveItems items libs
    → length libs < fuel
    → Answers rs items libs (loading_graph fuel libs items rs)
unfolding loading_graph
loading_graph_lem rs items zero libs resolved there enough = elim enough [ ]
loading_graph_lem rs items (suc fuel) libs resolved there enough =
    let keys_there = download_keys_of items libs in
    let left_there = new_remaining (loads rs keys_there libs) libs in
    rw (founds_by_symbol-table rs keys_there [] libs resolved) (
      round_answer rs items libs there (loading_graph fuel left_there items rs) (λ fewer.
        loading_graph_lem rs items fuel left_there
          (select-IsResolved rs (loads rs keys_there libs) libs resolved)
          (left-HaveItems rs items libs there) (omega arith)))
