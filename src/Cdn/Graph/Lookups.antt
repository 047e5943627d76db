-- ===== src/Cdn/Graph/Lookups.antt =====
-- The lookups of `loading_graph` that cannot fail: the items of its layers, and what the error names.
use py_youwol.Prelude.{
  String, ◌<>◌, ◌≡◌, refl, ◌∙◌, sym, some, Bool, true, List, [], ◌∷◌, arith, eq_iff, inl, inr,
  Option-cases, if◌then◌else◌,
}
use py_youwol.Prelude.Dict.{Dict, get, put, keys, member, holds, holds-put}
use py_youwol.Prelude.Exec.{ok, err, circular_dependencies}
use py_youwol.Cdn.Models.{LibraryQuery, LibraryResolved, full_exported_symbol, ResolvedQuery}
use py_youwol.Cdn.Graph.{
  Item, at_key, items_of, names_dict, dependencies_dict, not_founds, not_found, circular,
}
use py_youwol.Cdn.Graph.Rounds.{has_symbol, table, member-keys_table}

pub items_of_members :
    (items : Dict Item) (ks : List String)
    → ((k : String) → member k ks ≡ true → (i : Item) × (get k items ≡ some i))
    → (is : List Item) × (items_of items ks ≡ ok is)
items_of_members items [] h = ([], refl)
items_of_members items (k ∷ ks) h =
    let (i, e) = h k (ground (arith, eq_iff k k)) in
    let (is, es) = items_of_members items ks (λ j m. h j (ground arith)) in (i ∷ is, ground arith)

holds-names_dict :
    (k : String) (acc : Dict String) (ds : List LibraryResolved)
    → holds k (names_dict acc ds) ≡ (if has_symbol k ds then true else holds k acc)
holds-names_dict k acc [] = refl
holds-names_dict k acc (d ∷ ds) =
    let s = full_exported_symbol d in
    let v = d.name <> ("#" <> d.version) in
    holds-names_dict k (put s v acc) ds ∙ ground (arith, holds-put k s v acc)

holds-dependencies_dict :
    (k : String) (acc : Dict (List LibraryQuery)) (ds : List LibraryResolved)
    → holds k (dependencies_dict acc ds) ≡ (if has_symbol k ds then true else holds k acc)
holds-dependencies_dict k acc [] = refl
holds-dependencies_dict k acc (d ∷ ds) =
    let s = full_exported_symbol d in
    holds-dependencies_dict k (put s d.dependencies acc) ds
    ∙ ground (arith, holds-put k s d.dependencies acc)

at_key-holds {ℓ} :
    {V : Type ℓ} (k : String) (d : Dict V) → holds k d ≡ true → (v : V) × (at_key k d ≡ ok v)
at_key-holds k d h = elim (Option-cases (get k d)) [
  | inl e ↦ cc (rw (e, holds) at h)
  | inr (v, e) ↦ (v, ground arith)
]

not_founds_total :
    (names : Dict String) (deps : Dict (List LibraryQuery)) (acc : Dict (List (String × String)))
    (t : Dict (List Bool))
    → ((k : String) → member k (keys t) ≡ true → (holds k names ≡ true) × (holds k deps ≡ true))
    → (p : Dict (List (String × String))) × (not_founds names deps acc t ≡ ok p)
not_founds_total names deps acc [] h = (acc, refl)
not_founds_total names deps acc ((k, bs) ∷ t) h =
    let both = h k (ground (arith, eq_iff k k)) in
    let (name, e₁) = at_key-holds k names both.0 in
    let (qs, e₂) = at_key-holds k deps both.1 in
    let (p, e₃) =
      not_founds_total names deps (put name (not_found qs bs) acc) t (λ j m. h j (ground arith)) in
    (p, ground arith)

-- The error of a round that loads nothing is raised as it is meant.
pub circular_total :
    (rs : Dict ResolvedQuery) (download : List String) (libs : List LibraryResolved)
    → (packages : Dict (List (String × String))) × (circular libs (table rs download [] libs)
        ≡ err (circular_dependencies packages))
circular_total rs download libs =
    let (p, e) =
      not_founds_total (names_dict [] libs) (dependencies_dict [] libs) []
        (table rs download [] libs)
        (λ k m.
          let there = sym (member-keys_table rs download libs k) ∙ m in
          (holds-names_dict k [] libs ∙ rw there, holds-dependencies_dict k [] libs ∙ rw there)) in
    (p, ground arith)
