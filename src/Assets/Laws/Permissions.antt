-- ===== src/Assets/Laws/Permissions.antt =====
-- `get_permissions_implementation` of permissions.py: what a user may do with an asset.
use Prim.Native.Nat.{ℕ}
use py_youwol.Prelude.{
  String, Bool, true, false, inl, inr, Bool-cases, Option-cases, ◌≡◌, refl, sym, ◌∙◌, ap, ◌&&◌,
  ◌||◌, Option, none, some, List, [], ◌∷◌, map, arith, any, All, ◌==◌, if◌then◌else◌,
}
use py_youwol.Prelude.Dict.{get}
use py_youwol.Prelude.Exec.{Result, ok, err, pure, lift, ◌>>=◌}
use py_youwol.DocDb.Models.{Doc, field_of}
use py_youwol.DocDb.Pairs.Cells.{listed}
use py_youwol.Groups.{
  Base64, User, to_group_scope, is_child_group, is_child_scope, get_leaf_group_ids,
}
use py_youwol.Assets.Models.{Json, PermissionsResp, Configuration}
use py_youwol.Assets.Access.{flatten_docs}
use py_youwol.Assets.Permissions.{
  any_child, with_ancestors, is_open, get_policies_permission, get_consumer_permission,
  full_permission, get_permissions,
}
use py_youwol.Assets.Laws.Members.{IsDistinct, any-distinct, All-distinct}
use py_youwol.Assets.Laws.Tables.{
  IsAssets, asset_at, policy_at, db_get-asset_at, query_policies-policy_at,
}
use py_youwol.Assets.Laws.Inherited.{gather-policies}
use py_youwol.Assets.Laws.Permission.{
  IsRule, is_authorized, is_readable, is_shared, get_permission-readable,
}

-- The policy of a group passes a test.
abbrev pub grants : (Doc → Bool) → Option Doc → Bool
grants test none = false
grants test (some d) = test d

any-flatten :
    (test : Doc → Bool) (policy : String → Option Doc) (gs : List String)
    → any test (flatten_docs (map (λ g. listed (policy g)) gs))
      ≡ any (λ g. grants test (policy g)) gs
any-flatten test policy [] = refl
any-flatten test policy (g ∷ gs) = elim (Option-cases (policy g)) [
  | inl e ↦ rw e (any-flatten test policy gs)
  | inr (d, e) ↦ rw (e, any-flatten test policy gs) refl
]

All-flatten :
    {P : Doc → Type 0} (policy : String → Option Doc) (gs : List String)
    → ((g : String) (d : Doc) → policy g ≡ some d → P d)
    → All P (flatten_docs (map (λ g. listed (policy g)) gs))
All-flatten policy [] h = tt
All-flatten policy (g ∷ gs) h = elim (Option-cases (policy g)) [
  | inl e ↦ rw e (All-flatten policy gs h)
  | inr (d, e) ↦ rw e ((h g d e, All-flatten policy gs h))
]

-- The group is a child of the owner, or the owner.
abbrev pub is_owner_group : Base64 → String → String → Bool
is_owner_group c owner_id g = elim (is_child_group c g owner_id) [ ok b ↦ b | err x ↦ false ]

abbrev pub HasScope : Base64 → String → Type 0
HasScope c g = (scope : String) × (to_group_scope c g ≡ ok scope)

is_child_group-ok :
    (c : Base64) (owner_id g : String)
    → HasScope c owner_id
    → HasScope c g
    → (b : Bool) × (is_child_group c g owner_id ≡ ok b)
unfolding is_child_group
is_child_group-ok c owner_id g (p, e) (q, k) = elim (Bool-cases (g == owner_id)) [
  | inl t ↦ (true, rw t refl)
  | inr n ↦ (
    if q == "private" || p == "private" then g == owner_id else is_child_scope q p,
    rw (n, k, e) refl,
  )
]

returned : (r : Result Bool) (b : Bool) → r ≡ ok b → r ≡ ok (elim r [ ok x ↦ x | err x ↦ false ])
returned (ok x) b e = refl
returned (err x) b e = cc

is_child_group-total :
    (c : Base64) (owner_id g : String)
    → HasScope c owner_id
    → HasScope c g
    → is_child_group c g owner_id ≡ ok (is_owner_group c owner_id g)
is_child_group-total c owner_id g o h =
    let (b, e) = is_child_group-ok c owner_id g o h in returned (is_child_group c g owner_id) b e

any_child-any :
    (c : Base64) (owner_id : String) (gs : List String)
    → HasScope c owner_id
    → All (HasScope c) gs
    → any_child c gs owner_id ≡ ok (any (is_owner_group c owner_id) gs)
unfolding any_child
any_child-any c owner_id [] o a = refl
any_child-any c owner_id (g ∷ gs) o a =
    ground (arith, is_child_group-total c owner_id g o a.0, any_child-any c owner_id gs o a.1)

is_open-some :
    (j : Json) (d : Doc) → IsRule j d → is_open (d ∷ []) ≡ ok (is_authorized d && is_shared d)
unfolding is_open
is_open-some j d r = ground (arith, r.read_get, r.share_get)

-- The default policy lets everyone read and share.
abbrev pub is_public : String → Configuration → Bool
is_public a s = grants (λ d. is_authorized d && is_shared d) (policy_at a "*" s)

-- What the user may do: `owns` the asset, else what the policies of the groups give.
pub record IsPermission (j : Json) (a : String) (s : Configuration) (now : ℕ) (owns : Bool)
    (groups : List String) (p : PermissionsResp) : Type 0 where
  pub writes : p.write ≡ owns
  pub reads :
      p.read
      ≡ ((owns || is_public a s) || any (λ g. grants (is_readable j now) (policy_at a g s)) groups)
  pub shares :
      p.share ≡ ((owns || is_public a s) || any (λ g. grants is_shared (policy_at a g s)) groups)

module _ (c : Base64) (j : Json) (distinct : List String → List String) (s : Configuration)
    (t : IsAssets s) (a : String)
    (rules : (g : String) (d : Doc) → policy_at a g s ≡ some d → IsRule j d) where
  is_open-policy_at : is_open (listed (policy_at a "*" s)) ≡ ok (is_public a s)
  unfolding is_open
  is_open-policy_at = elim (Option-cases (policy_at a "*" s)) [
    | inl e ↦ rw e refl
    | inr (d, e) ↦ rw e (is_open-some j d (rules "*" d e))
  ]

  -- The policies of the groups, with no other way to the asset.
  get_policies_permission-readable :
      (groups : List String) (now : ℕ)
      → (p : PermissionsResp) × (get_policies_permission c j distinct a groups now s ≡ (ok p, s))
        × (p.read ≡ any (λ g. grants (is_readable j now) (policy_at a g s)) groups)
        × (p.share ≡ any (λ g. grants is_shared (policy_at a g s)) groups)
        × (p.write ≡ false)
  unfolding get_policies_permission ◌>>=◌ lift
  get_policies_permission-readable groups now =
      let policy : String → Option Doc = λ g. policy_at a g s in
      let (p, e, r, h, w) =
        get_permission-readable j now false (flatten_docs (map (λ g. listed (policy g)) groups))
          (All-flatten policy groups rules) in
      (
        p,
        rw (gather-policies s t a groups, e) refl,
        r ∙ any-flatten (is_readable j now) policy groups,
        h ∙ any-flatten is_shared policy groups,
        w,
      )

  get_consumer_permission-IsPermission :
      (groups : List String) (now : ℕ)
      → (p : PermissionsResp) × (get_consumer_permission c j distinct a groups now s ≡ (ok p, s))
        × IsPermission j a s now false groups p
  unfolding get_consumer_permission ◌>>=◌ lift pure
  get_consumer_permission-IsPermission groups now = elim (Bool-cases (is_public a s)) [
    | inl y ↦ (
      full_permission c j distinct false,
      rw (query_policies-policy_at s t a "*", is_open-policy_at, y) refl,
      record { writes = refl; reads = rw y refl; shares = rw y refl },
    )
    | inr n ↦
        let (p, e, r, h, w) = get_policies_permission-readable groups now in
        (
          p,
          rw (query_policies-policy_at s t a "*", is_open-policy_at, n) e,
          record { writes = w; reads = r ∙ rw n refl; shares = h ∙ rw n refl },
        )
  ]

  -- For an asset that exists, and groups that have a path: the user may do everything if one of
  -- the groups, or a group above, is the owner or its child; else read and share if the default
  -- policy gives both, and else what a policy of one of the groups gives. Nothing changes.
  pub get_permissions_lem :
      IsDistinct distinct
      → (user : User) (now : ℕ) (asset : Doc) (owner_id : String) (groups : List String)
      → asset_at a s ≡ some asset
      → get "group_id" asset ≡ some owner_id
      → with_ancestors c (get_leaf_group_ids c user) ≡ ok groups
      → HasScope c owner_id
      → All (HasScope c) groups
      → (p : PermissionsResp) × (get_permissions c j distinct user a now s ≡ (ok p, s))
        × IsPermission j a s now (any (is_owner_group c owner_id) groups) groups p
  unfolding get_permissions ◌>>=◌ lift pure
  get_permissions_lem d user now asset owner_id groups e o w h k =
      let owns =
        any_child-any c owner_id (distinct groups) h (All-distinct (HasScope c) d groups k)
        ∙ ap ok (any-distinct d (is_owner_group c owner_id) groups) in
      elim (Bool-cases (any (is_owner_group c owner_id) groups)) [
        | inl y ↦ (
          full_permission c j distinct true,
          rw (w, db_get-asset_at s t a, e, field_of, o, owns, y) refl,
          record { writes = sym y; reads = rw y refl; shares = rw y refl },
        )
        | inr n ↦
            let (p, q, r) = get_consumer_permission-IsPermission (distinct groups) now in
            (
              p,
              rw (w, db_get-asset_at s t a, e, field_of, o, owns, n) q,
              record {
                writes = r.writes ∙ sym n;
                reads =
                    r.reads
                    ∙ rw
                        (
                          n,
                          any-distinct d (λ g. grants (is_readable j now) (policy_at a g s)) groups,
                        )
                        refl;
                shares =
                    r.shares
                    ∙ rw (n, any-distinct d (λ g. grants is_shared (policy_at a g s)) groups) refl;
              },
            )
      ]
