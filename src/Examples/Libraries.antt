-- ===== src/Examples/Libraries.antt =====
-- The loading graph at three libraries, of which one needs the two others.
use py_youwol.Prelude.{String, ℕ, ◌≡◌, refl, List, [], ◌∷◌, All, arith, ◌==◌, if◌then◌else◌, inl}
use py_youwol.Prelude.Dict.{Dict}
use py_youwol.Prelude.Exec.{ok, err, circular_dependencies}
use py_youwol.Cdn.Models.{
  LibraryQuery, LibraryResolved, full_exported_symbol, get_query_key, ResolvedQuery,
}
use py_youwol.Cdn.Graph.{Item, loading_graph}
use py_youwol.Cdn.Graph.Rounds.{IsResolved}
use py_youwol.Cdn.Graph.Order.{HaveItems, have_items, Loads}
use py_youwol.Cdn.Graph.Step.{Answers}
use py_youwol.Cdn.Graph.Correct.{loading_graph_lem}
use py_youwol.Cdn.Graph.Acyclic.{IsRanked, rank_each, loading_graph-IsRanked}

abbrev lib : String → List LibraryQuery → LibraryResolved
lib name dependencies = record {
  name = name;
  version = "1.0.0";
  id = name;
  namespace = "";
  kind = "js/wasm";
  fingerprint = "";
  exported_symbol = name;
  aliases = [];
  api_key = "1";
  bundle = "main.js";
  dependencies = dependencies;
}

abbrev query : String → LibraryQuery
query name = record { name = name; version = "^1.0.0" }

abbrev libs : List LibraryResolved
libs = lib "c" (query "a" ∷ query "b" ∷ []) ∷ lib "b" (query "a" ∷ []) ∷ lib "a" [] ∷ []

abbrev resolved : String → String × ResolvedQuery
resolved name = (
  get_query_key (query name),
  record {
    name = name;
    query = "^1.0.0";
    version = "1.0.0";
    exported_symbol = full_exported_symbol (lib name []);
    parent = lib "root" [];
  },
)

abbrev resolutions : Dict ResolvedQuery
unfolding get_query_key full_exported_symbol
resolutions = resolved "a" ∷ resolved "b" ∷ []

abbrev items : Dict Item
unfolding full_exported_symbol
items =
    ("c_APIv1", ("c", "c/main.js"))
    ∷ ("b_APIv1", ("b", "b/main.js"))
    ∷ ("a_APIv1", ("a", "a/main.js"))
    ∷ []

loading_graph_runs :
    loading_graph 4 libs items resolutions
    ≡ ok ((("a", "a/main.js") ∷ []) ∷ (("b", "b/main.js") ∷ []) ∷ (("c", "c/main.js") ∷ []) ∷ [])
unfolding loading_graph get_query_key full_exported_symbol
loading_graph_runs = refl

circular_runs :
    loading_graph 2 (lib "a" (query "a" ∷ []) ∷ []) items resolutions
    ≡ err (circular_dependencies (("a#1.0.0", ("a", "^1.0.0") ∷ []) ∷ []))
unfolding loading_graph get_query_key full_exported_symbol
circular_runs = refl

items_there : HaveItems items libs
unfolding full_exported_symbol
items_there = have_items items libs ((_, refl), ((_, refl), ((_, refl), tt)))

libs-IsResolved : All (IsResolved resolutions) libs
unfolding get_query_key resolutions
libs-IsResolved = (((_, refl), ((_, refl), tt)), (((_, refl), tt), (tt, tt)))

loading_graph_lem_example : Answers resolutions items libs (loading_graph 4 libs items resolutions)
loading_graph_lem_example =
    loading_graph_lem resolutions items 4 libs libs-IsResolved items_there (omega arith)

abbrev rank : String → ℕ
rank k = if k == "c_APIv1" then 2 else if k == "b_APIv1" then 1 else 0

ranked : IsRanked resolutions items libs rank
unfolding get_query_key full_exported_symbol
ranked = rank_each resolutions items libs rank (
  (inl (refl, omega arith), (inl (refl, omega arith), tt)),
  ((inl (refl, omega arith), tt), (tt, tt)),
)

loading_graph-IsRanked_example :
    (response : List (List Item)) × (loading_graph 4 libs items resolutions ≡ ok response)
    × Loads resolutions items libs response
loading_graph-IsRanked_example =
    loading_graph-IsRanked resolutions items 4 libs rank libs-IsResolved items_there ranked
      (omega arith)
