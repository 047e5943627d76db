-- ===== src/Assets/Laws/Creation.antt =====
-- `create_asset` of assets.py, with the default policy of the asset.
use Prim.Native.Nat.{ℕ}
use py_youwol.Prelude.{
  String, Bool, true, false, inl, inr, Bool-cases, ◌≡◌, refl, ◌∙◌, ap, not, ◌&&◌, Option, some,
  arith, ◌==◌, eq_refl, if◌then◌else◌,
}
use mathlib.Core.Path.{subst}
use py_youwol.Prelude.Int.{pos}
use py_youwol.Prelude.Dict.{get, put, get-put}
use py_youwol.Prelude.Exec.{Result, ok, err, continue, pure, lift, ◌>>=◌, then_ok, bind_ok}
use py_youwol.DocDb.Models.{Doc}
use py_youwol.DocDb.Write.{write}
use py_youwol.DocDb.Table.Rows.{has_value, upsert, row-upsert}
use py_youwol.DocDb.Table.Reads.{found}
use py_youwol.DocDb.Table.Writes.{update_document-upsert}
use py_youwol.Groups.{Base64, User, private_group_id}
use py_youwol.Assets.Models.{
  ReadPolicyEnum, forbidden, authorized, owning, expiration_date, SharePolicyEnum, share_forbidden,
  share_authorized, read_value, share_value, Json, IsJson, AccessPolicyResp, NewAssetBody,
  AssetResponse, Configuration,
}
use py_youwol.Assets.Docs.{format_asset}
use py_youwol.Assets.Store.{public_owner, db_post, create_policy, get_asset_implementation}
use py_youwol.Assets.Access.{get_specific_policy}
use py_youwol.Assets.Handlers.{given_or, is_closed, doc_asset, doc_default, create_asset, get_asset}
use py_youwol.Assets.Invariant.{db_post-IsAssets}
use py_youwol.Assets.Laws.Tables.{
  IsAssets, asset_at, policy_at, db_get-asset_at, create_policy-upsert, create_policy-IsAssets,
  doc_access-IsPolicyDoc, policy_at-create_policy,
}
use py_youwol.Assets.Laws.Policies.{
  specific, get_specific_policy-specific, specific-if, policy_of_doc-doc_access,
}

abbrev pub with_asset : String → Doc → Configuration → Configuration
with_asset k doc s = record s {
  doc_db_asset =
      write
        (upsert (has_value "asset_id" k) (put "owner" public_owner doc) s.doc_db_asset.documents)
        s.doc_db_asset;
}

-- The response for the document that is found.
abbrev pub shown : Option Doc → Result AssetResponse
shown o = then_ok (found o) format_asset

continue-lift :
    {A B : Type 0} (r : Result A) (f : A → Result B) (s : Configuration)
    → continue r (λ x. lift (f x)) s ≡ (then_ok r f, s)
unfolding lift
continue-lift (ok x) f s = refl
continue-lift (err e) f s = refl

module _ (s : Configuration) (t : IsAssets s) where
  pub get_asset-shown : (b : String) → get_asset b s ≡ (shown (asset_at b s), s)
  unfolding get_asset get_asset_implementation ◌>>=◌ lift
  get_asset-shown b =
      rw (db_get-asset_at s t b) (continue-lift (found (asset_at b s)) format_asset s)

  module _ (k : String) (doc : Doc)
      (key : get "asset_id" (put "owner" public_owner doc) ≡ some k) where
    pub db_post-upsert : db_post doc s ≡ (ok tt, with_asset k doc s)
    unfolding db_post
    db_post-upsert =
        rw (update_document-upsert "asset_id" k public_owner doc s.doc_db_asset t.assets key) refl

    -- What is found after the document is written.
    pub asset_at-db_post :
        (b : String)
        → asset_at b (db_post doc s).1
          ≡ (if k == b then some (put "owner" public_owner doc) else asset_at b s)
    asset_at-db_post b = rw db_post-upsert (
        row-upsert "asset_id" k (put "owner" public_owner doc) key public_owner b
          s.doc_db_asset.documents t.assets.keyed
        ∙ ground (arith, get-put "owner" "owner" public_owner doc, eq_refl public_owner))

is_closed-forbidden :
    (read : ReadPolicyEnum) (share : SharePolicyEnum)
    → is_closed read share ≡ (read_value read == "forbidden" && share_value share == "forbidden")
is_closed-forbidden forbidden share_forbidden = refl
is_closed-forbidden forbidden share_authorized = refl
is_closed-forbidden authorized share = refl
is_closed-forbidden owning share = refl
is_closed-forbidden expiration_date share = refl

module _ (j : Json) (c : Base64) (user : User) (body : NewAssetBody j.Parameters) (now : ℕ) where
  -- The identifier of the new asset, its document and the document of its default policy.
  abbrev pub new_id : String
  new_id = given_or body.asset_id (c.encode body.raw_id)

  abbrev pub new_group : String
  new_group = given_or body.group_id (private_group_id user)

  abbrev pub new_doc : Doc
  new_doc = doc_asset new_id new_group body

  abbrev pub new_policy : Doc
  new_policy = doc_default new_id body.raw_id body.default_access_policy now

  abbrev pub as_created : AssetResponse
  as_created = record {
    asset_id = new_id;
    kind = body.kind;
    raw_id = body.raw_id;
    name = body.name;
    images = "[]";
    thumbnails = "[]";
    tags = body.tags;
    description = body.description;
    group_id = new_group;
  }

  abbrev pub default_policy : AccessPolicyResp j.Parameters
  default_policy = record {
    read = body.default_access_policy.read;
    share = body.default_access_policy.share;
    parameters = j.nothing;
    timestamp = some (pos now);
  }

  -- Both values of the policy are the word `forbidden`.
  abbrev pub is_private : Bool
  is_private =
      read_value body.default_access_policy.read == "forbidden"
      && share_value body.default_access_policy.share == "forbidden"

  module _ (s : Configuration) (t : IsAssets s) where
    abbrev after_asset : Configuration
    after_asset = with_asset new_id new_doc s

    after_asset-IsAssets : IsAssets after_asset
    after_asset-IsAssets = subst IsAssets (ap (λ r. r.1) (db_post-upsert s t new_id new_doc refl)) (
        db_post-IsAssets s t new_doc (
          (_, refl),
          (
            (_, refl),
            (
              (_, refl),
              ((_, refl), ((_, refl), ((_, refl), ((_, refl), ((_, refl), ((_, refl), tt)))))),
            ),
          ),
        ))

    abbrev after_policy : Configuration
    after_policy = if is_private then after_asset else (create_policy new_policy after_asset).1

    closed : is_closed body.default_access_policy.read body.default_access_policy.share ≡ is_private
    closed = is_closed-forbidden body.default_access_policy.read body.default_access_policy.share

    create_asset-after : create_asset c user body now s ≡ (ok as_created, after_policy)
    unfolding create_asset ◌>>=◌ lift pure format_asset bind_ok
    create_asset-after = elim (Bool-cases is_private) [
      | inl y ↦ rw (db_post-upsert s t new_id new_doc refl, closed, y) refl
      | inr n ↦
          rw
            (
              db_post-upsert s t new_id new_doc refl,
              closed,
              n,
              create_policy-upsert after_asset after_asset-IsAssets new_id "*" new_policy refl refl,
            )
            refl
    ]

    after_policy-IsAssets : IsAssets after_policy
    after_policy-IsAssets = elim (Bool-cases is_private) [
      | inl y ↦ rw y after_asset-IsAssets
      | inr n ↦ rw n (
          create_policy-IsAssets after_asset after_asset-IsAssets new_id "*" new_policy refl refl
            (doc_access-IsPolicyDoc _ _ _ _ _ _ _))
    ]

    asset_at-after :
        (b : String)
        → asset_at b after_policy
          ≡ (if new_id == b then some (put "owner" public_owner new_doc) else asset_at b s)
    asset_at-after b =
        let one =
          rw (db_post-upsert s t new_id new_doc refl) at
            (asset_at-db_post s t new_id new_doc refl b) in
        elim (Bool-cases is_private) [
          | inl y ↦ rw y one
          | inr n ↦
              rw
                (
                  n,
                  create_policy-upsert after_asset after_asset-IsAssets new_id "*" new_policy refl
                      refl,
                )
                one
        ]

    policy_at-after :
        (b h : String)
        → policy_at b h after_policy ≡ (
            if not is_private && (new_id == b && "*" == h)
            then some (put "owner" public_owner new_policy)
            else policy_at b h s)
    policy_at-after b h = elim (Bool-cases is_private) [
      | inl y ↦ rw y refl
      | inr n ↦ rw n (
          policy_at-create_policy after_asset after_asset-IsAssets new_id "*" new_policy refl refl b
            h)
    ]

    shown-if :
        (test : Bool) (o : Option Doc)
        → shown (if test then some (put "owner" public_owner new_doc) else o)
          ≡ (if test then ok as_created else shown o)
    unfolding format_asset bind_ok
    shown-if true o = refl
    shown-if false o = refl

    -- On well-formed tables, creating an asset returns it, with the identifier and the group given or
    -- those made for it; it is read as it was returned, and every other asset as before. Unless its
    -- default policy forbids both reading and sharing, that policy is read back under `*`, without its
    -- parameters; no other policy is read differently, and none at all if it forbids both.
    pub create_asset-get_asset :
        IsJson j
        → (b h : String)
        → let after = (create_asset c user body now s).1 in
          ((create_asset c user body now s).0 ≡ ok as_created)
          × ((get_asset b after).0 ≡ (if new_id == b then ok as_created else (get_asset b s).0))
          × ((get_specific_policy j b h after).0 ≡ (
              if not is_private && (new_id == b && "*" == h)
              then ok default_policy
              else (get_specific_policy j b h s).0))
    create_asset-get_asset law b h = rw create_asset-after (
      refl,
      ap (λ r. r.0) (get_asset-shown after_policy after_policy-IsAssets b)
          ∙ ap shown (asset_at-after b)
          ∙ shown-if (new_id == b) (asset_at b s)
          ∙ rw (get_asset-shown s t b) refl,
      ap (λ r. r.0) (get_specific_policy-specific j after_policy after_policy-IsAssets b h)
          ∙ ap (specific j) (policy_at-after b h)
          ∙ specific-if j (not is_private && (new_id == b && "*" == h)) new_policy (policy_at b h s)
          ∙ rw
              (
                policy_of_doc-doc_access j new_id body.raw_id "*" body.default_access_policy.read
                    body.default_access_policy.share "{}" j.nothing law.loads_nothing now,
                get_specific_policy-specific j s t b h,
              )
              refl,
    )
