-- ===== src/Assets/Laws/Sharing.antt =====
-- A policy that is put (access.py) shows in the permissions of users (permissions.py).
use Prim.Native.Nat.{ℕ}
use py_youwol.Prelude.{
  String, Bool, true, false, inl, inr, Bool-cases, ◌≡◌, refl, sym, ◌∙◌, ap, ◌&&◌, ◌||◌, some, List,
  arith, any, All, ◌==◌, eq_refl,
}
use mathlib.Core.Path.{subst}
use mathlib.Core.Option.{some-injective}
use py_youwol.Prelude.Dict.{get, put, member}
use py_youwol.Prelude.Exec.{ok}
use py_youwol.DocDb.Models.{Doc}
use py_youwol.Groups.{Base64, User, get_leaf_group_ids}
use py_youwol.Assets.Models.{
  authorized, share_value, read_value, Json, AccessPolicyBody, PermissionsResp, Configuration,
}
use py_youwol.Assets.Store.{public_owner, create_policy}
use py_youwol.Assets.Access.{put_access_policy}
use py_youwol.Assets.Permissions.{with_ancestors, get_permissions}
use py_youwol.Assets.Laws.Tables.{
  IsAssets, asset_at, policy_at, create_policy-upsert, create_policy-IsAssets,
  doc_access-IsPolicyDoc, policy_at-create_policy,
}
use py_youwol.Assets.Laws.Policies.{doc_put, put_access_policy-create}
use py_youwol.Assets.Laws.Members.{IsDistinct, any_of_member}
use py_youwol.Assets.Laws.Permission.{IsRule, is_authorized, is_until, is_readable}
use py_youwol.Assets.Laws.Permissions.{grants, HasScope, is_owner_group, get_permissions_lem}

or_true : (b : Bool) → (b || true) ≡ true
or_true b = ground arith

read_of_get : (d : Doc) → get "read" d ≡ some "authorized" → is_authorized d ≡ true
read_of_get d e = ground (arith, e)

until_of_get : (d : Doc) → get "read" d ≡ some "authorized" → is_until d ≡ false
until_of_get d e = ground (arith, e)

module _ (j : Json) (a related_id g : String) (body : AccessPolicyBody j.Parameters) (at_time : ℕ)
    (opens : body.read ≡ authorized) where
  abbrev put_doc : Doc
  put_doc = put "owner" public_owner (doc_put j a related_id g body at_time)

  read_authorized : get "read" put_doc ≡ some "authorized"
  read_authorized = ap (λ r. some (read_value r)) opens

  not_until : is_until put_doc ≡ true → ⊥
  not_until u = cc (until_of_get put_doc read_authorized, u)

  put-IsRule : IsRule j put_doc
  put-IsRule = record {
    read = "authorized";
    share = share_value body.share;
    read_get = read_authorized;
    share_get = refl;
    deadline = λ u. absurd (not_until u);
  }

  put_readable : (now : ℕ) → is_readable j now put_doc ≡ true
  put_readable now = rw (read_of_get put_doc read_authorized) refl

  module _ (s : Configuration) (t : IsAssets s)
      (rules : (h : String) (d : Doc) → policy_at a h s ≡ some d → IsRule j d) where
    abbrev doc : Doc
    doc = doc_put j a related_id g body at_time

    put-rules : (h : String) (d : Doc) → policy_at a h (create_policy doc s).1 ≡ some d → IsRule j d
    put-rules h d e =
        let found = sym (policy_at-create_policy s t a g doc refl refl a h) ∙ e in
        elim (Bool-cases (a == a && g == h)) [
          | inl y ↦ subst (IsRule j) (some-injective put_doc d (rw y at found)) put-IsRule
          | inr n ↦ rules h d (rw n at found)
        ]

    granted : (now : ℕ) → grants (is_readable j now) (policy_at a g (create_policy doc s).1) ≡ true
    granted now =
        rw (policy_at-create_policy s t a g doc refl refl a g, eq_refl a, eq_refl g)
          (put_readable now)

    -- When the policy of one of the user's groups is put to authorize reading, by the owner say, the
    -- user can read from then on.
    pub put_access_policy-get_permissions :
        (c : Base64) (distinct : List String → List String)
        → IsDistinct distinct
        → (user : User) (now : ℕ) (asset : Doc) (owner_id : String) (groups : List String)
        → asset_at a s ≡ some asset
        → get "related_id" asset ≡ some related_id
        → get "group_id" asset ≡ some owner_id
        → with_ancestors c (get_leaf_group_ids c user) ≡ ok groups
        → HasScope c owner_id
        → All (HasScope c) groups
        → member g groups ≡ true
        → (p : PermissionsResp) × ((get_permissions c j distinct user a now
              (put_access_policy j a g body at_time s).1).0
            ≡ ok p)
          × (p.read ≡ true)
          × (p.write ≡ any (is_owner_group c owner_id) groups)
    put_access_policy-get_permissions c distinct d user now asset owner_id groups e r o w h k m =
        let after = (create_policy doc s).1 in
        let kept =
          create_policy-IsAssets s t a g doc refl refl (doc_access-IsPolicyDoc _ _ _ _ _ _ _) in
        let same : asset_at a after ≡ some asset =
          rw (create_policy-upsert s t a g doc refl refl) e in
        let (p, q, i) =
          get_permissions_lem c j distinct after kept a put-rules d user now asset owner_id groups
            same o w h k in
        let shown =
          any_of_member (λ x. grants (is_readable j now) (policy_at a x after)) g groups m
            (granted now) in
        (
          p,
          rw (put_access_policy-create j s t a g body at_time asset related_id e r)
              (ap (λ z. z.0) q),
          i.reads ∙ rw shown (or_true _),
          i.writes,
        )
