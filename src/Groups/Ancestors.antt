-- ===== src/Groups/Ancestors.antt =====
-- `ancestors_group_id` of utils/clients/utils.py, from the names on the path of a group.
use Prim.Native.String.{[] as empty, ◌∷◌ as ◌▹◌}
use Prim.Native.String.append
use py_youwol.Prelude.{
  ℕ, suc, String, ◌≡◌, refl, ap, ◌∙◌, true, false, not, List, [], ◌∷◌, ◌++◌, map, arith, ◌==◌, ◌<>◌,
  length, length-append, take, select, All,
}
use py_youwol.Prelude.Text.{has, split, split_of_lacks, split-append, join}
use py_youwol.Prelude.Exec.{ok, then_ok}
use py_youwol.Groups.{
  Base64, IsBase64, to_group_id, is_child_group, items_of_scope, range, all_but_last, reversed,
  ancestors_group_id,
}
use py_youwol.Groups.Laws.{IsScope, scope_of_id, is_child_group-prefix}

-- The path of a group, from the names on it.
abbrev pub path_of : List String → String
path_of items = join "/" ("" ∷ items)

pub record IsName (item : String) : Type 0 where
  pub no_slash : has b'/' item ≡ false
  pub not_empty : (item == "") ≡ false

append_assoc : (s t u : String) → (s <> t) <> u ≡ s <> (t <> u)
append_assoc empty t u = rw (append.nil t, append.nil (t <> u)) refl
append_assoc (d ▹ s) t u =
    rw (append.cons d s t, append.cons d (s <> t) u, append.cons d s (t <> u), append_assoc s t u)
      refl

join-last :
    (w : String) (ws : List String) (x : String)
    → join "/" (w ∷ ws ++ (x ∷ [])) ≡ join "/" (w ∷ ws) <> ("/" <> x)
unfolding join
join-last w [] x = refl
join-last w (v ∷ ws) x =
    rw
      (
        join-last v ws x,
        append_assoc w ("/" <> join "/" (v ∷ ws)) ("/" <> x),
        append_assoc "/" (join "/" (v ∷ ws)) ("/" <> x),
      )
      refl

slash-cons : (t : String) → "/" <> t ≡ "/" ▹ t
slash-cons t = append.cons "/" "" t ∙ ap (λ u. "/" ▹ u) (append.nil t)

split-join :
    (w : String) (ws : List String)
    → has b'/' w ≡ false
    → All IsName ws
    → split b'/' (join "/" (w ∷ ws)) ≡ (w, ws)
unfolding join
split-join w [] h a = split_of_lacks b'/' w h
split-join w (v ∷ ws) h a =
    rw
      (
        slash-cons (join "/" (v ∷ ws)),
        split-append b'/' w "/" (join "/" (v ∷ ws)) h refl,
        split-join v ws a.0.no_slash a.1,
      )
      refl

names-kept : (ws : List String) → All IsName ws → select (λ item. not (item == "")) ws ≡ ws
names-kept [] a = refl
names-kept (w ∷ ws) a = rw (a.0.not_empty, names-kept ws a.1) refl

items_of_path : (ws : List String) → All IsName ws → items_of_scope (path_of ws) ≡ ws
unfolding has
items_of_path ws a = rw (split-join "" ws refl a) (names-kept ws a)

-- The paths from the root down to the group, by recursion on the names.
abbrev paths_below : List String → List String → List String
paths_below above [] = []
paths_below above (w ∷ ws) = path_of (above ++ (w ∷ [])) ∷ paths_below (above ++ (w ∷ [])) ws

abbrev path_to : List String → ℕ → String
path_to items i = join "/" ("" ∷ take (suc i) items)

append_nil : (xs : List String) → xs ++ [] ≡ xs
append_nil [] = refl
append_nil (x ∷ xs) = ap (λ l. x ∷ l) (append_nil xs)

append_list_assoc : (xs ys zs : List String) → (xs ++ ys) ++ zs ≡ xs ++ (ys ++ zs)
append_list_assoc [] ys zs = refl
append_list_assoc (x ∷ xs) ys zs = ap (λ l. x ∷ l) (append_list_assoc xs ys zs)

take-suc :
    (above : List String) (w : String) (ws : List String)
    → take (suc (length above)) (above ++ (w ∷ ws)) ≡ above ++ (w ∷ [])
take-suc [] w ws = refl
take-suc (a ∷ above) w ws = ap (λ l. a ∷ l) (take-suc above w ws)

paths_of_below :
    (above ws : List String)
    → map (path_to (above ++ ws)) (range (length above) (length ws)) ≡ paths_below above ws
paths_of_below above [] = refl
paths_of_below above (w ∷ ws) =
    let assoc = append_list_assoc above (w ∷ []) ws in
    let n : length (above ++ (w ∷ [])) ≡ suc (length above) =
      omega (arith, length-append above (w ∷ [])) in
    rw (take-suc above w ws) (
      ap (λ l. path_of (above ++ (w ∷ [])) ∷ l)
        (rw (assoc, n) at (paths_of_below (above ++ (w ∷ [])) ws)))

paths_below-last :
    (above ws : List String) (x : String)
    → paths_below above (ws ++ (x ∷ []))
      ≡ paths_below above ws ++ (path_of (above ++ (ws ++ (x ∷ []))) ∷ [])
paths_below-last above [] x = refl
paths_below-last above (w ∷ ws) x =
    ap (λ l. path_of (above ++ (w ∷ [])) ∷ l)
      (paths_below-last (above ++ (w ∷ [])) ws x
        ∙ rw (append_list_assoc above (w ∷ []) (ws ++ (x ∷ []))) refl)

all_but_last-last : (xs : List String) (x : String) → all_but_last (xs ++ (x ∷ [])) ≡ xs
all_but_last-last [] x = refl
all_but_last-last (y ∷ []) x = refl
all_but_last-last (y ∷ z ∷ xs) x = ap (λ l. y ∷ l) (all_but_last-last (z ∷ xs) x)

All-last : (ws : List String) (x : String) → All IsName ws → IsName x → All IsName (ws ++ (x ∷ []))
All-last [] x a n = (n, tt)
All-last (w ∷ ws) x a n = (a.0, All-last ws x a.1 n)

module _ (c : Base64) (law : IsBase64 c) where
  abbrev id_of : List String → String
  id_of items = to_group_id c (path_of items)

  ids_above : List String → List String
  ids_above items = reversed (map (to_group_id c) (paths_below [] items))

  reversed-last :
      (ws : List String) (x : String)
      → reversed (map (to_group_id c) (ws ++ (x ∷ [])))
        ≡ to_group_id c x ∷ reversed (map (to_group_id c) ws)
  reversed-last [] x = refl
  reversed-last (w ∷ ws) x = rw (reversed-last ws x) refl

  ancestors-ids_above :
      (items : List String) (x : String)
      → All IsName (items ++ (x ∷ []))
      → IsScope c (path_of (items ++ (x ∷ [])))
      → ancestors_group_id c (id_of (items ++ (x ∷ []))) ≡ ok (ids_above items)
  unfolding ancestors_group_id ids_above
  ancestors-ids_above items x a s =
      rw
        (
          scope_of_id c law (path_of (items ++ (x ∷ []))) s,
          s.public,
          items_of_path (items ++ (x ∷ [])) a,
          paths_of_below [] (items ++ (x ∷ [])),
          paths_below-last [] items x,
          all_but_last-last (paths_below [] items) (path_of (items ++ (x ∷ []))),
        )
        refl

  ids_above-last :
      (items : List String) (x : String)
      → ids_above (items ++ (x ∷ [])) ≡ id_of (items ++ (x ∷ [])) ∷ ids_above items
  unfolding ids_above
  ids_above-last items x =
      rw (paths_below-last [] items x)
        (reversed-last (paths_below [] items) (path_of (items ++ (x ∷ []))))

  -- A group at the root has no ancestors; any other has its parent, of which it is a child, and
  -- then the ancestors of its parent.
  pub ancestors_group_id-parent :
      (items : List String) (x y : String)
      → All IsName (items ++ (x ∷ []))
      → IsName y
      → IsScope c (path_of (items ++ (x ∷ [])))
      → IsScope c (path_of ((items ++ (x ∷ [])) ++ (y ∷ [])))
      → IsScope c (path_of (y ∷ []))
      → (ancestors_group_id c (id_of (y ∷ [])) ≡ ok [])
        × (ancestors_group_id c (id_of ((items ++ (x ∷ [])) ++ (y ∷ [])))
            ≡ then_ok
                (ancestors_group_id c (id_of (items ++ (x ∷ []))))
                (λ above. ok (id_of (items ++ (x ∷ [])) ∷ above)))
        × (is_child_group c (id_of ((items ++ (x ∷ [])) ++ (y ∷ []))) (id_of (items ++ (x ∷ [])))
            ≡ ok true)
  unfolding ids_above
  ancestors_group_id-parent items x y a n s t r = (
    ancestors-ids_above [] y (n, tt) r,
    ancestors-ids_above (items ++ (x ∷ [])) y (All-last (items ++ (x ∷ [])) y a n) t
        ∙ rw (ancestors-ids_above items x a s) (ap ok (ids_above-last items x)),
    (is_child_group-prefix c law _ _ t s).1 ("/" <> y, join-last "" (items ++ (x ∷ [])) y),
  )
