-- ===== src/Cdn/Graph/Order.antt =====
-- What `loading_graph` returns: every library once, each behind what it depends on.
use py_youwol.Prelude.{
  ℕ, ◌+◌, ◌≤◌, String, ◌≡◌, refl, ◌∙◌, some, Bool, true, false, List, [], ◌∷◌, arith, ◌==◌, eq_iff,
  inl, inr, Bool-cases, Option-cases, if◌then◌else◌, length, All,
}
use py_youwol.Prelude.Dict.{Dict, get, member}
use py_youwol.Prelude.Exec.{Result, ok, then_ok}
use py_youwol.Cdn.Models.{LibraryQuery, LibraryResolved, full_exported_symbol, ResolvedQuery}
use py_youwol.Cdn.Graph.{Item, new_remaining, download_keys_of, items_of}
use py_youwol.Cdn.Graph.Rounds.{needs, has_symbol, target, ready, times}

-- The layers of symbols, with what is loaded before them: a symbol of a layer belongs to a library,
-- and what the library depends on is loaded before the layer.
abbrev pub IsOrdered :
    Dict ResolvedQuery → List LibraryResolved → (String → Bool) → List (List String) → Type 0
IsOrdered rs libs loaded [] = Unit
IsOrdered rs libs loaded (l ∷ ls) =
    ((k : String)
      → member k l ≡ true
      → (qs : List LibraryQuery) × (needs libs k ≡ some qs) × (ready rs loaded qs ≡ true))
    × IsOrdered rs libs (λ k. if member k l then true else loaded k) ls

-- How often a symbol occurs in all the layers.
abbrev pub times_in_all : String → List (List String) → ℕ
times_in_all k [] = 0
times_in_all k (l ∷ ls) = times k l + times_in_all k ls

-- The items of the symbols.
abbrev pub with_items : Dict Item → List (List String) → Result (List (List Item))
with_items items [] = ok []
with_items items (l ∷ ls) =
    then_ok (items_of items l) (λ is. then_ok (with_items items ls) (λ rest. ok (is ∷ rest)))

-- Every library has an item.
abbrev pub HaveItems : Dict Item → List LibraryResolved → Type 0
HaveItems items libs = (k : String) → has_symbol k libs ≡ true → (i : Item) × (get k items ≡ some i)

-- The layers of `response`: every library is in one of them, once, behind what it depends on.
pub record Loads (rs : Dict ResolvedQuery) (items : Dict Item) (libs : List LibraryResolved)
    (response : List (List Item)) : Type 0 where
  pub layers : List (List String)
  pub shown : with_items items layers ≡ ok response
  pub ordered : IsOrdered rs libs (λ k. member k (download_keys_of items libs)) layers
  pub once : (k : String) → times_in_all k layers ≡ (if has_symbol k libs then 1 else 0)

-- Some of the libraries, each of which depends on one of them or on one that has no item.
pub record IsStuck (rs : Dict ResolvedQuery) (items : Dict Item) (libs : List LibraryResolved)
    : Type 0 where
  pub left : List LibraryResolved
  pub first : String
  pub present : has_symbol first left ≡ true
  pub part : (k : String) (qs : List LibraryQuery) → needs left k ≡ some qs → needs libs k ≡ some qs
  pub waits :
      (k : String) (qs : List LibraryQuery)
      → needs left k ≡ some qs
      → ready rs (λ j. member j (download_keys_of items left)) qs ≡ false

pub ready_mono :
    (rs : Dict ResolvedQuery) (f g : String → Bool) (qs : List LibraryQuery)
    → ((k : String) → f k ≡ true → g k ≡ true)
    → ready rs f qs ≡ true
    → ready rs g qs ≡ true
ready_mono rs f g [] h r = refl
ready_mono rs f g (q ∷ qs) h r = ground (arith, h (target rs q), ready_mono rs f g qs h)

pub IsOrdered-mono :
    (rs : Dict ResolvedQuery) (few many : List LibraryResolved) (f g : String → Bool)
    (ls : List (List String))
    → ((k : String) (qs : List LibraryQuery) → needs few k ≡ some qs → needs many k ≡ some qs)
    → ((k : String) → f k ≡ true → g k ≡ true)
    → IsOrdered rs few f ls
    → IsOrdered rs many g ls
IsOrdered-mono rs few many f g [] n h o = tt
IsOrdered-mono rs few many f g (l ∷ ls) n h o = (
  λ k m. let (qs, e, r) = o.0 k m in (qs, n k qs e, ready_mono rs f g qs h r),
  IsOrdered-mono rs few many (λ k. if member k l then true else f k)
      (λ k. if member k l then true else g k) ls n (λ k. ground (arith, h k)) o.1,
)

pub length-new_remaining :
    (loaded : List String) (libs : List LibraryResolved)
    → length (new_remaining loaded libs) ≤ length libs
length-new_remaining loaded [] = omega arith
length-new_remaining loaded (d ∷ ds) = ground (arith, length-new_remaining loaded ds)

-- Where nothing was loaded, all libraries are left.
pub same_of_length :
    (loaded : List String) (libs : List LibraryResolved)
    → length (new_remaining loaded libs) ≡ length libs
    → new_remaining loaded libs ≡ libs
same_of_length loaded [] h = refl
same_of_length loaded (d ∷ ds) h =
    ground (arith, length-new_remaining loaded ds, same_of_length loaded ds)

-- What holds of each library holds of each symbol.
pub needs_of_each :
    (P : String → List LibraryQuery → Type 0) (ds : List LibraryResolved)
    → All (λ d. P (full_exported_symbol d) d.dependencies) ds
    → (k : String) (qs : List LibraryQuery) → needs ds k ≡ some qs
    → P k qs
needs_of_each P [] h k qs e = cc
needs_of_each P (d ∷ ds) h k qs e = elim (Option-cases (needs ds k)) [
  | inr (rs, r) ↦ needs_of_each P ds h.1 k qs (r ∙ (rw r at e))
  | inl n ↦ elim (Bool-cases (full_exported_symbol d == k)) [
    | inl t ↦
        let same : d.dependencies ≡ qs = cc (rw (n, t) at e) in
        rw same at (rw ((eq_iff (full_exported_symbol d) k).0 t) at h.0)
    | inr f ↦ cc (rw (n, f) at e)
  ]
]

pub have_items :
    (items : Dict Item) (libs : List LibraryResolved)
    → All (λ d. (i : Item) × (get (full_exported_symbol d) items ≡ some i)) libs
    → HaveItems items libs
have_items items libs h k t = elim (Option-cases (needs libs k)) [
  | inl n ↦ cc (rw (n, has_symbol) at t)
  | inr (qs, e) ↦ needs_of_each (λ j qs. (i : Item) × (get j items ≡ some i)) libs h k qs e
]
