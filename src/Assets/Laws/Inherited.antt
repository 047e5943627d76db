-- ===== src/Assets/Laws/Inherited.antt =====
-- The policy that a group has of an asset, its own or that of a group above it (access.py).
use py_youwol.Prelude.{
  String, Bool, true, false, inl, inr, ◌≡◌, refl, ap, Option, none, some, Option-cases, List, [],
  ◌∷◌, ◌++◌, map, if◌then◌else◌,
}
use py_youwol.Prelude.Dict.{get}
use py_youwol.Prelude.Exec.{Result, ok, pure, lift, ◌>>=◌, gather}
use py_youwol.DocDb.Models.{Doc, field_of}
use py_youwol.DocDb.Pairs.Cells.{listed}
use py_youwol.Groups.{Base64, is_child_group, ancestors_group_id}
use py_youwol.Assets.Models.{Json, AccessPolicyResp, Configuration}
use py_youwol.Assets.Docs.{policy_of_doc}
use py_youwol.Assets.Store.{query_policies}
use py_youwol.Assets.Access.{
  query_body, closed, flatten_docs, owning_policy, first_policy, get_inherited_policy,
  get_access_policy,
}
use py_youwol.Assets.Laws.Tables.{
  IsAssets, asset_at, policy_at, db_get-asset_at, query_policies-policy_at,
}

pub gather-policies :
    (s : Configuration) (t : IsAssets s) (a : String) (gs : List String)
    → gather (map (λ g. query_policies (query_body a g)) gs) s
      ≡ (ok (map (λ g. listed (policy_at a g s)) gs), s)
unfolding gather
gather-policies s t a [] = refl
gather-policies s t a (g ∷ gs) =
    rw (query_policies-policy_at s t a g, gather-policies s t a gs) refl

module _ (j : Json) where
  -- The policy of the first of the groups that has one; the closed one if none has.
  abbrev pub nearest : (String → Option Doc) → List String → Result (AccessPolicyResp j.Parameters)
  nearest policy [] = policy_of_doc j closed
  nearest policy (g ∷ gs) = elim (policy g) [
    | some doc ↦ policy_of_doc j doc
    | none ↦ nearest policy gs
  ]

  first-nearest :
      (policy : String → Option Doc) (gs : List String)
      → first_policy j
          (flatten_docs (map (λ g. listed (policy g)) gs) ++ listed (policy "*"))
          closed
        ≡ nearest policy (gs ++ ("*" ∷ []))
  first-nearest policy [] = elim (Option-cases (policy "*")) [
    | inl e ↦ rw e refl
    | inr (d, e) ↦ rw e refl
  ]
  first-nearest policy (g ∷ gs) = elim (Option-cases (policy g)) [
    | inl e ↦ rw e (first-nearest policy gs)
    | inr (d, e) ↦ rw e refl
  ]

  module _ (c : Base64) (s : Configuration) (t : IsAssets s) (a g : String) where
    get_inherited_policy-nearest :
        (above : List String)
        → ancestors_group_id c g ≡ ok above
        → get_inherited_policy j c a g s
          ≡ (nearest (λ h. policy_at a h s) (g ∷ above ++ ("*" ∷ [])), s)
    unfolding get_inherited_policy ◌>>=◌ lift
    get_inherited_policy-nearest above e =
        rw (e, gather-policies s t a (g ∷ above), query_policies-policy_at s t a "*")
          (ap (λ r. (r, s)) (first-nearest (λ h. policy_at a h s) (g ∷ above)))

    -- A group that owns the asset has the policy of owners; any other has the policy of the
    -- nearest group at or above it that has one, else the default one, else the closed one.
    pub get_access_policy-nearest :
        (asset : Doc) (owner_id : String) (is_owner : Bool) (above : List String)
        → asset_at a s ≡ some asset
        → get "group_id" asset ≡ some owner_id
        → is_child_group c g owner_id ≡ ok is_owner
        → ancestors_group_id c g ≡ ok above
        → get_access_policy j c true a g s ≡ (
          if is_owner
              then ok (owning_policy j)
              else nearest (λ h. policy_at a h s) (g ∷ above ++ ("*" ∷ [])),
          s,
        )
    unfolding get_access_policy ◌>>=◌ lift pure
    get_access_policy-nearest asset owner_id true above e o i n =
        rw (db_get-asset_at s t a, e, field_of, o, i) refl
    get_access_policy-nearest asset owner_id false above e o i n =
        rw (db_get-asset_at s t a, e, field_of, o, i) (get_inherited_policy-nearest above n)
