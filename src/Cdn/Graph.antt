-- ===== src/Cdn/Graph.antt =====
-- `loading_graph` of src/youwol/backends/cdn/loading_graph_implementation.py: the libraries in
-- layers, each to be loaded after the layers before it.
pub mod Rounds
pub mod Order
pub mod Lookups
pub mod Step
pub mod Correct
pub mod Acyclic
use py_youwol.Prelude.{
  ℕ, zero, suc, String, ◌<>◌, Bool, true, false, not, none, some, List, [], ◌∷◌, map, eqb,
  if◌then◌else◌, length, select, all,
}
use py_youwol.Prelude.Dict.{Dict, get, put, keys, member}
use py_youwol.Prelude.Exec.{Result, ok, err, then_ok, key_error, out_of_fuel, circular_dependencies}
use py_youwol.Cdn.Models.{
  LibraryQuery, LibraryResolved, full_exported_symbol, ResolvedQuery, get_query_key,
}

-- The asset and the address of a library.
abbrev pub Item : Type 0
Item = String × String

-- `d[k]`
abbrev pub at_key {ℓ} : {V : Type ℓ} → String → Dict V → Result V
at_key k d = elim (get k d) [ none ↦ err key_error | some v ↦ ok v ]

abbrev pub cached_api_key : Dict ResolvedQuery → LibraryQuery → Result String
cached_api_key resolutions lib =
    then_ok (at_key (get_query_key lib) resolutions) (λ r. ok r.exported_symbol)

-- For each dependency, whether it is among the libraries that are loaded already.
unfoldable pub founds : Dict ResolvedQuery → List String → List LibraryQuery → Result (List Bool)
founds resolutions download_keys [] = ok []
founds resolutions download_keys (q ∷ qs) =
    then_ok (cached_api_key resolutions q)
      (λ s. then_ok (founds resolutions download_keys qs) (λ bs. ok (member s download_keys ∷ bs)))

-- The dict `dependencies`, behind what it has already. A later library of a symbol replaces an
-- earlier one.
unfoldable pub founds_by_symbol :
    Dict ResolvedQuery
    → List String
    → Dict (List Bool)
    → List LibraryResolved
    → Result (Dict (List Bool))
unfolding founds
founds_by_symbol resolutions download_keys acc [] = ok acc
founds_by_symbol resolutions download_keys acc (d ∷ ds) =
    then_ok (founds resolutions download_keys d.dependencies)
      (λ bs. founds_by_symbol resolutions download_keys (put (full_exported_symbol d) bs acc) ds)

abbrev pub fulfilled_libs : Dict (List Bool) → List String
fulfilled_libs [] = []
fulfilled_libs ((key, available) ∷ ds) =
    let rest = fulfilled_libs ds in if all (λ b. b) available then key ∷ rest else rest

abbrev pub new_remaining : List String → List LibraryResolved → List LibraryResolved
new_remaining fulfilled = select (λ p. not (member (full_exported_symbol p) fulfilled))

abbrev pub download_keys_of : Dict Item → List LibraryResolved → List String
download_keys_of items remaining =
    select (λ k. not (member k (map full_exported_symbol remaining))) (keys items)

-- `[items_dict[a] for a in fulfilled_libs]`
abbrev pub items_of : Dict Item → List String → Result (List Item)
items_of items [] = ok []
items_of items (k ∷ ks) =
    then_ok (at_key k items) (λ i. then_ok (items_of items ks) (λ is. ok (i ∷ is)))

abbrev pub names_dict : Dict String → List LibraryResolved → Dict String
names_dict acc [] = acc
names_dict acc (d ∷ ds) =
    names_dict (put (full_exported_symbol d) (d.name <> ("#" <> d.version)) acc) ds

abbrev pub dependencies_dict :
    Dict (List LibraryQuery) → List LibraryResolved → Dict (List LibraryQuery)
dependencies_dict acc [] = acc
dependencies_dict acc (d ∷ ds) =
    dependencies_dict (put (full_exported_symbol d) d.dependencies acc) ds

abbrev pub not_found : List LibraryQuery → List Bool → List (String × String)
not_found [] bs = []
not_found (q ∷ qs) [] = []
not_found (q ∷ qs) (b ∷ bs) =
    let rest = not_found qs bs in if b then rest else (q.name, q.version) ∷ rest

-- The dict `not_founds` of the error.
abbrev pub not_founds :
    Dict String
    → Dict (List LibraryQuery)
    → Dict (List (String × String))
    → Dict (List Bool)
    → Result (Dict (List (String × String)))
not_founds names dependencies acc [] = ok acc
not_founds names dependencies acc ((pack, found) ∷ ds) = then_ok (at_key pack names) (λ name.
    then_ok (at_key pack dependencies)
      (λ qs. not_founds names dependencies (put name (not_found qs found) acc) ds))

abbrev pub circular : List LibraryResolved → Dict (List Bool) → Result (List (List Item))
circular remaining dependencies =
    then_ok (not_founds (names_dict [] remaining) (dependencies_dict [] remaining) [] dependencies)
      (λ packages. err (circular_dependencies packages))

-- The end of a round: `next_round` is the call for the libraries that are left.
unfoldable pub end_round :
    Dict Item
    → List LibraryResolved
    → Dict (List Bool)
    → Result (List (List Item))
    → Result (List (List Item))
end_round items remaining dependencies next_round =
    let fulfilled = fulfilled_libs dependencies in
    let left = new_remaining fulfilled remaining in
    let layer = items_of items fulfilled in
    if eqb (length left) 0
    then then_ok layer (λ l. ok (l ∷ []))
    else if eqb (length left) (length remaining)
    then circular remaining dependencies
    else then_ok next_round (λ ls. then_ok layer (λ l. ok (l ∷ ls)))

unfoldable pub loading_graph :
    ℕ → List LibraryResolved → Dict Item → Dict ResolvedQuery → Result (List (List Item))
unfolding founds_by_symbol end_round
loading_graph zero remaining items resolutions = err out_of_fuel
loading_graph (suc fuel) remaining items resolutions =
    then_ok (founds_by_symbol resolutions (download_keys_of items remaining) [] remaining)
      (λ dependencies.
        let next_round =
          loading_graph fuel (new_remaining (fulfilled_libs dependencies) remaining) items
            resolutions in
        end_round items remaining dependencies next_round)
