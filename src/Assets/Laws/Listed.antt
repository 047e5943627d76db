-- ===== src/Assets/Laws/Listed.antt =====
-- What `delete_asset` of assets.py finds under the folder of an asset, and removes.
use py_youwol.Prelude.{
  String, Bool, true, false, inl, inr, Bool-cases, ◌≡◌, refl, ◌∙◌, sym, ap, Option-cases, not, ◌&&◌,
  ◌||◌, List, [], ◌∷◌, arith, All, ◌==◌, eq_iff, eq_refl, select, any, none, some,
}
use py_youwol.Prelude.Text.{contains, strip_prefix}
use py_youwol.Prelude.Dict.{member}
use py_youwol.Prelude.Exec.{ok}
use py_youwol.Assets.Store.{is_under}
use py_youwol.Assets.Models.{Configuration}
use py_youwol.Assets.Handlers.{is_hidden, is_listed, metadata_of, remove_objects}
use text.Mathlib.TextLemmas.{append_cancel_right}
use py_youwol.Assets.Laws.Files.{
  IsApart, is_metadata, is_metadata-metadata_of, hits, removed, not_hit, select-IsApart,
  remove_objects_lem,
}

-- The path is of a file under the folder, and no name below it begins with a dot.
abbrev pub is_visible : String → String → Bool
is_visible dir path = elim (strip_prefix dir path) [
  | none ↦ false
  | some rest ↦ not (is_under "." rest || contains "/." rest)
]

visible_if : (x y : Bool) → (not (x || y) && not false) ≡ not (x || y)
visible_if x y = ground arith

and_false : (x : Bool) → (x && false) ≡ true → false ≡ true
and_false x h = ground arith

pub is_listed-visible :
    (dir p : String) → is_metadata p ≡ false → is_listed dir p ≡ is_visible dir p
is_listed-visible dir p plain = elim (Option-cases (strip_prefix dir p)) [
  | inl n ↦ rw (n, is_listed, is_visible) refl
  | inr (rest, e) ↦
      rw (e, plain, is_listed, is_visible) (visible_if (is_under "." rest) (contains "/." rest))
]

listed_plain : (dir f : String) → is_listed dir f ≡ true → is_metadata f ≡ false
listed_plain dir f t = elim (Option-cases (strip_prefix dir f)) [
  | inl n ↦ cc (rw (n, is_listed) at t)
  | inr (rest, e) ↦ elim (Bool-cases (is_metadata f)) [
    | inr n ↦ n
    | inl y ↦ cc (and_false (not (is_hidden rest)) (rw (e, y, is_listed) at t))
  ]
]

any_of :
    (h t : String → Bool) (q : String) (files : List String)
    → ((f : String) → t f ≡ true → h f ≡ (f == q))
    → any h (select t files) ≡ (member q files && t q)
any_of h t q [] e = refl
any_of h t q (f ∷ files) e = elim (Bool-cases (t f)) [
  | inl y ↦ elim (Bool-cases (f == q)) [
    | inl same ↦ rw (y, e f y, same, ap t (sym ((eq_iff f q).0 same)) ∙ y) refl
    | inr other ↦ rw (y, e f y, other) (any_of h t q files e)
  ]
  | inr n ↦ elim (Bool-cases (f == q)) [
    | inl same ↦
        rw (n, same, any_of h t q files e, ap t (sym ((eq_iff f q).0 same)) ∙ n) (ground arith)
    | inr other ↦ rw (n, other) (any_of h t q files e)
  ]
]

module _ (dir q : String) (plain : is_metadata q ≡ false) where
  hits-plain : (f : String) → hits q f ≡ (f == q)
  hits-plain f = elim (Bool-cases (f == q)) [
    | inl t ↦ rw ((eq_iff f q).0 t, eq_refl q) refl
    | inr n ↦ not_hit q f plain n ∙ sym n
  ]

  hits-metadata_of : (f : String) → is_metadata f ≡ false → hits (metadata_of q) f ≡ (f == q)
  hits-metadata_of f free = elim (Bool-cases (metadata_of q == f)) [
    | inl t ↦ cc (is_metadata-metadata_of q, free, ap is_metadata ((eq_iff (metadata_of q) f).0 t))
    | inr n ↦ elim (Bool-cases (f == q)) [
      | inl t ↦ rw n (rw ((eq_iff f q).0 t, eq_refl (metadata_of q), eq_refl q) refl)
      | inr o ↦ elim (Bool-cases (metadata_of q == metadata_of f)) [
        | inl y ↦
            let same = append_cancel_right q f ".metadata.json" ((eq_iff _ _).0 y) in
            cc (o, (eq_iff f q).1 (sym same))
        | inr z ↦ rw (n, z, o) refl
      ]
    ]
  ]

  -- What is hit: the objects that are listed, and their metadata.
  pub hit_object :
      (files : List String)
      → any (hits q) (select (is_listed dir) files) ≡ (member q files && is_visible dir q)
  hit_object files =
      any_of (hits q) (is_listed dir) q files (λ f t. hits-plain f)
      ∙ rw (is_listed-visible dir q plain) refl

  pub hit_metadata :
      (files : List String)
      → any (hits (metadata_of q)) (select (is_listed dir) files)
        ≡ (member q files && is_visible dir q)
  hit_metadata files =
      any_of (hits (metadata_of q)) (is_listed dir) q files
        (λ f t. hits-metadata_of f (listed_plain dir f t))
      ∙ rw (is_listed-visible dir q plain) refl

weaken :
    (x : String) (xs ys : List String)
    → All (λ q. member q xs ≡ true) ys
    → All (λ q. member q (x ∷ xs) ≡ true) ys
weaken x xs [] h = tt
weaken x xs (y ∷ ys) h = (ground (arith, h.0), weaken x xs ys h.1)

members : (xs : List String) → All (λ q. member q xs ≡ true) xs
members [] = tt
members (x ∷ xs) = (rw (eq_refl x) refl, weaken x xs xs (members xs))

listed_members :
    (dir : String) (xs files : List String)
    → All (λ q. member q files ≡ true) xs
    → All (λ q. (member q files ≡ true) × (is_metadata q ≡ false)) (select (is_listed dir) xs)
listed_members dir [] files h = tt
listed_members dir (x ∷ xs) files h = elim (Bool-cases (is_listed dir x)) [
  | inl t ↦ rw t (((h.0, listed_plain dir x t), listed_members dir xs files h.1))
  | inr n ↦ rw n (listed_members dir xs files h.1)
]

-- All that is listed under a folder is removed.
pub remove_objects-listed :
    (dir : String) (s : Configuration)
    → IsApart s.file_system
    → remove_objects (select (is_listed dir) s.file_system) s ≡ (
      ok tt,
      record s { file_system = removed (select (is_listed dir) s.file_system) s.file_system },
    )
remove_objects-listed dir s apart =
    remove_objects_lem (select (is_listed dir) s.file_system) s
      (select-IsApart (is_listed dir) s.file_system apart)
      (listed_members dir s.file_system s.file_system (members s.file_system))
