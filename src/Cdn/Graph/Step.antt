-- ===== src/Cdn/Graph/Step.antt =====
-- One round of `loading_graph` answers if the next one does.
use mathlib.Core.Path.{subst}
use py_youwol.Prelude.{
  ℕ, ◌+◌, ◌<◌, String, ◌≡◌, refl, ◌∙◌, sym, ap, ◌⊎◌, some, true, false, List, [], ◌∷◌, arith, eqb,
  eqb_iff, eq_refl, inl, inr, Bool-cases, Option-cases, if◌then◌else◌, length,
}
use py_youwol.Prelude.Dict.{Dict, member}
use py_youwol.Prelude.Exec.{Result, ok, err, then_ok, circular_dependencies}
use py_youwol.Cdn.Models.{LibraryQuery, LibraryResolved, full_exported_symbol, ResolvedQuery}
use py_youwol.Cdn.Graph.{Item, new_remaining, download_keys_of, items_of, circular, end_round}
use py_youwol.Cdn.Graph.Rounds.{
  needs, has_symbol, ready, table, loads, member-loads, times, times-loads, needs-new_remaining,
  member-download_keys_of,
}
use py_youwol.Cdn.Graph.Order.{
  times_in_all, HaveItems, Loads, IsStuck, IsOrdered-mono, length-new_remaining, same_of_length,
}
use py_youwol.Cdn.Graph.Lookups.{items_of_members, circular_total}

-- What a call may come to: the layers of an order, or the error with a reason for it.
abbrev pub Answers :
    Dict ResolvedQuery → Dict Item → List LibraryResolved → Result (List (List Item)) → Type 0
Answers rs items libs r =
    ((response : List (List Item)) × (r ≡ ok response) × Loads rs items libs response)
    ⊎ ((packages : Dict (List (String × String))) × (r ≡ err (circular_dependencies packages))
        × IsStuck rs items libs)

first_is_there :
    (d : LibraryResolved) (ds : List LibraryResolved)
    → has_symbol (full_exported_symbol d) (d ∷ ds) ≡ true
first_is_there d ds = ground (arith, eq_refl (full_exported_symbol d))

nil_of_length : (libs : List LibraryResolved) → eqb (length libs) 0 ≡ true → libs ≡ []
nil_of_length [] h = refl
nil_of_length (d ∷ ds) h = ground arith

cons_of_length :
    (libs : List LibraryResolved)
    → eqb (length libs) 0 ≡ false
    → (d : LibraryResolved) × (ds : List LibraryResolved) × (libs ≡ d ∷ ds)
cons_of_length [] h = cc
cons_of_length (d ∷ ds) h = (d, ds, refl)

module _ (rs : Dict ResolvedQuery) (items : Dict Item) (libs : List LibraryResolved)
    (there : HaveItems items libs) where
  abbrev download : List String
  download = download_keys_of items libs

  abbrev done : List String
  done = loads rs download libs

  abbrev left : List LibraryResolved
  left = new_remaining done libs

  done-needs :
      (k : String)
      → member k done ≡ true
      → (qs : List LibraryQuery) × (needs libs k ≡ some qs)
        × (ready rs (λ j. member j download) qs ≡ true)
  done-needs k m = elim (Option-cases (needs libs k)) [
    | inl e ↦ cc (m, rw e at (member-loads rs download libs k))
    | inr (qs, e) ↦ (qs, e, sym (rw e at (member-loads rs download libs k)) ∙ m)
  ]

  -- The items of the symbols of a round.
  layer : (is : List Item) × (items_of items done ≡ ok is)
  layer =
      items_of_members items done
        (λ k m. let (qs, e, r) = done-needs k m in there k (rw (e, has_symbol) refl))

  pub left-HaveItems : HaveItems items left
  left-HaveItems k h = there k (ground (arith, needs-new_remaining k done libs))

  loaded_before_left :
      (k : String)
      → member k (download_keys_of items left) ≡ true
      → (if member k done then true else member k download) ≡ true
  loaded_before_left k m = ground (
    arith,
    needs-new_remaining k done libs,
    member-download_keys_of k items libs,
    member-download_keys_of k items left,
  )

  once_in_round :
      (k : String) (n : ℕ)
      → n ≡ (if has_symbol k left then 1 else 0)
      → times k done + n ≡ (if has_symbol k libs then 1 else 0)
  once_in_round k n e = elim (Bool-cases (member k done)) [
    | inl m ↦
        let (qs, there_is, r) = done-needs k m in
        ground (arith, times-loads rs download libs k, needs-new_remaining k done libs)
    | inr m ↦ ground (arith, times-loads rs download libs k, needs-new_remaining k done libs)
  ]

  -- The last round.
  Loads-last :
      (is : List Item) → items_of items done ≡ ok is → left ≡ [] → Loads rs items libs (is ∷ [])
  Loads-last is e none_left = record {
    layers = done ∷ [];
    shown = rw e refl;
    ordered = (done-needs, tt);
    once = λ k. once_in_round k 0 (rw none_left);
  }

  Loads-round :
      (is : List Item) (rest : List (List Item))
      → items_of items done ≡ ok is
      → Loads rs items left rest
      → Loads rs items libs (is ∷ rest)
  Loads-round is rest e h = record {
    layers = done ∷ h.layers;
    shown = rw (e, h.shown) refl;
    ordered = (
      done-needs,
      IsOrdered-mono rs left libs _ _ h.layers
          (λ k qs n. ground (arith, needs-new_remaining k done libs)) loaded_before_left h.ordered,
    );
    once = λ k. once_in_round k (times_in_all k h.layers) (h.once k);
  }

  IsStuck-round : IsStuck rs items left → IsStuck rs items libs
  IsStuck-round h = record {
    left = h.left;
    first = h.first;
    present = h.present;
    part = λ k qs e. ground (arith, h.part k qs e, needs-new_remaining k done libs);
    waits = h.waits;
  }

  waits_for :
      (k : String) (qs : List LibraryQuery)
      → needs libs k ≡ some qs
      → left ≡ libs
      → (ready rs (λ j. member j download) qs ≡ true)
        ⊎ (ready rs (λ j. member j download) qs ≡ false)
      → ready rs (λ j. member j download) qs ≡ false
  waits_for k qs n same (inr r) = r
  waits_for k qs n same (inl r) = ground (
    arith,
    needs-new_remaining k done libs,
    rw n at (member-loads rs download libs k),
    ap (λ l. needs l k) same,
  )

  -- Where a round loads nothing, what is left is all there was, and waits.
  IsStuck-here :
      (d : LibraryResolved) (ds : List LibraryResolved)
      → libs ≡ d ∷ ds
      → left ≡ libs
      → IsStuck rs items libs
  IsStuck-here d ds e same = record {
    left = libs;
    first = full_exported_symbol d;
    present = rw e (first_is_there d ds);
    part = λ k qs n. n;
    waits = λ k qs n. waits_for k qs n same (Bool-cases (ready rs (λ j. member j download) qs));
  }

  abbrev outcome : Result (List (List Item)) → Result (List (List Item))
  outcome = end_round items libs (table rs download [] libs)

  outcome-last :
      (is : List Item) (next : Result (List (List Item)))
      → items_of items done ≡ ok is
      → eqb (length left) 0 ≡ true
      → outcome next ≡ ok (is ∷ [])
  unfolding end_round
  outcome-last is next e t = rw (t, e) refl

  outcome-stuck :
      (next : Result (List (List Item)))
      → eqb (length left) 0 ≡ false
      → eqb (length left) (length libs) ≡ true
      → outcome next ≡ circular libs (table rs download [] libs)
  unfolding end_round
  outcome-stuck next n t = rw (n, t) refl

  outcome-next :
      (is : List Item) (next : Result (List (List Item)))
      → items_of items done ≡ ok is
      → eqb (length left) 0 ≡ false
      → eqb (length left) (length libs) ≡ false
      → outcome next ≡ then_ok next (λ ls. ok (is ∷ ls))
  unfolding end_round
  outcome-next is next e n m = rw (n, m, e) refl

  next_answer :
      (is : List Item) (next : Result (List (List Item)))
      → items_of items done ≡ ok is
      → outcome next ≡ then_ok next (λ ls. ok (is ∷ ls))
      → Answers rs items left next
      → Answers rs items libs (outcome next)
  next_answer is next e same (inl (rest, r, h)) =
      inl (is ∷ rest, same ∙ rw r refl, Loads-round is rest e h)
  next_answer is next e same (inr (p, r, h)) = inr (p, same ∙ rw r refl, IsStuck-round h)

  stuck_answer :
      (next : Result (List (List Item)))
      → eqb (length left) 0 ≡ false
      → eqb (length left) (length libs) ≡ true
      → Answers rs items libs (outcome next)
  stuck_answer next n t =
      let (p, e) = circular_total rs download libs in
      let same = same_of_length done libs ((eqb_iff _ _).0 t) in
      let (d, ds, more) = cons_of_length libs (subst (λ l. eqb (length l) 0 ≡ false) same n) in
      inr (p, outcome-stuck next n t ∙ e, IsStuck-here d ds more same)

  -- A round answers, if the next one does.
  pub round_answer :
      (next : Result (List (List Item)))
      → ((length left < length libs) → Answers rs items left next)
      → Answers rs items libs (outcome next)
  round_answer next a =
      let (is, e) = layer in
      elim (Bool-cases (eqb (length left) 0)) [
        | inl t ↦ inl (is ∷ [], outcome-last is next e t, Loads-last is e (nil_of_length left t))
        | inr n ↦ elim (Bool-cases (eqb (length left) (length libs))) [
          | inl t ↦ stuck_answer next n t
          | inr m ↦
              next_answer is next e (outcome-next is next e n m)
                (a (ground (arith, length-new_remaining done libs)))
        ]
      ]
