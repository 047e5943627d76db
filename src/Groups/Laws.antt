-- ===== src/Groups/Laws.antt =====
-- What utils/clients/utils.py says of groups whose identifiers are read as paths.
use Prim.Native.String.{[] as empty, ◌∷◌ as ◌▹◌}
use Prim.Native.String.append
use py_youwol.Prelude.{
  ℕ, zero, suc, ◌+◌, String, ◌≡◌, refl, sym, ap, ◌∙◌, ◌↔◌, inl, inr, Bool-cases, Bool, true, false,
  arith, ◌==◌, ◌<>◌, eq_iff, eq_refl,
}
use py_youwol.Prelude.Text.{contains, size, slice_to}
use py_youwol.Prelude.Exec.{ok}
use py_youwol.Groups.{Base64, IsBase64, to_group_id, to_group_scope, is_child_group, is_child_scope}

size-append : (s t : String) → size (s <> t) ≡ size s + size t
unfolding size
size-append empty t = rw append.nil (omega arith)
size-append (c ▹ s) t = rw append.cons (omega (arith, size-append s t))

slice_to-append : (s t : String) → slice_to (size s) (s <> t) ≡ s
unfolding slice_to size
slice_to-append empty t = refl
slice_to-append (c ▹ s) t = rw append.cons (ap (λ u. c ▹ u) (slice_to-append s t))

split-slice_to : (n : ℕ) (s : String) → (rest : String) × (s ≡ slice_to n s <> rest)
unfolding slice_to
split-slice_to zero s = (s, sym (append.nil s))
split-slice_to (suc n) empty = (empty, sym (append.nil empty))
split-slice_to (suc n) (c ▹ s) =
    let (rest, e) = split-slice_to n s in
    (rest, ap (λ u. c ▹ u) e ∙ sym (append.cons c (slice_to n s) rest))

-- A scope is the child of the scopes that it begins with.
is_child_scope-prefix :
    (child parent : String)
    → (is_child_scope child parent ≡ true) ↔ ((rest : String) × (child ≡ parent <> rest))
is_child_scope-prefix child parent = (
  λ e.
      let (rest, s) = split-slice_to (size parent) child in
      (rest, s ∙ ap (λ u. u <> rest) ((eq_iff _ parent).0 (ground arith))),
  λ (rest, e).
      rw e (ground (arith, size-append parent rest, slice_to-append parent rest, eq_refl parent)),
)

-- A path of a group whose identifier tells it.
pub record IsScope (c : Base64) (path : String) : Type 0 where
  pub public : (path == "private") ≡ false
  pub unmarked : contains "private" (c.encode path) ≡ false

ok-true : {b : Bool} → (ok b ≡ ok true) ↔ (b ≡ true)
ok-true = (λ e. cc, λ e. cc)

append-empty : (s : String) → s ≡ s <> ""
append-empty empty = sym (append.nil empty)
append-empty (c ▹ s) = ap (λ u. c ▹ u) (append-empty s) ∙ sym (append.cons c s empty)

module _ (c : Base64) (law : IsBase64 c) where
  pub scope_of_id : (p : String) → IsScope c p → to_group_scope c (to_group_id c p) ≡ ok p
  unfolding to_group_scope to_group_id
  scope_of_id p s = rw s.public (rw s.unmarked (law.decode-encode p))

  id-injective :
      (p q : String) → IsScope c p → IsScope c q → to_group_id c p ≡ to_group_id c q → p ≡ q
  id-injective p q s t e = cc (scope_of_id p s, scope_of_id q t, ap (to_group_scope c) e)

  -- A group is a child of the groups whose paths begin its own path, as texts: also of one whose
  -- name only begins its own name.
  pub is_child_group-prefix :
      (p q : String)
      → IsScope c p
      → IsScope c q
      → (is_child_group c (to_group_id c p) (to_group_id c q) ≡ ok true)
        ↔ ((rest : String) × (p ≡ q <> rest))
  unfolding is_child_group
  is_child_group-prefix p q s t = elim (Bool-cases (to_group_id c p == to_group_id c q)) [
    | inl same ↦
        let e = id-injective p q s t ((eq_iff _ _).0 same) in
        rw same ((λ h. ("", e ∙ append-empty q), λ h. refl))
    | inr ne ↦
        rw (ne, scope_of_id p s, scope_of_id q t, s.public, t.public)
          (
            λ h. (is_child_scope-prefix p q).0 (ok-true.0 h),
            λ h. ok-true.1 ((is_child_scope-prefix p q).1 h),
          )
  ]
