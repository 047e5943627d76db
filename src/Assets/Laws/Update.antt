-- ===== src/Assets/Laws/Update.antt =====
-- `post_asset` of assets.py: it changes the attributes that the body gives, and no others.
use py_youwol.Prelude.{
  ℕ, String, Bool, true, false, ◌&&◌, ◌≡◌, refl, ◌∙◌, ap, Option, none, some, arith, ◌==◌,
  if◌then◌else◌,
}
use mathlib.Core.Path.{subst}
use py_youwol.Prelude.Dict.{get, put}
use py_youwol.Prelude.Exec.{ok, pure, lift, ◌>>=◌}
use py_youwol.DocDb.Models.{Doc, field_of}
use py_youwol.DocDb.Table.Rows.{is_row, key_of_value}
use py_youwol.Groups.{Base64}
use py_youwol.Assets.Models.{AccessPolicyBody, PostAssetBody, AssetResponse, Configuration}
use py_youwol.Assets.Docs.{format_asset}
use py_youwol.Assets.Store.{public_owner}
use py_youwol.Assets.Handlers.{doc_default, related_of, policy_change, post_asset, get_asset}
use py_youwol.Assets.Invariant.{asset_at-IsAssetDoc, db_post-IsAssets}
use py_youwol.TreeDb.Invariant.Every.{first-All}
use py_youwol.Assets.Laws.Tables.{
  IsAssets, asset_at, db_get-asset_at, create_policy-upsert, create_policy-IsAssets,
  doc_access-IsPolicyDoc,
}
use py_youwol.Assets.Laws.Columns.{
  IsShown, format_asset-shown, IsShown-format_asset, updated_doc, updated_asset,
  updated_doc-IsShown,
}
use py_youwol.Assets.Laws.Creation.{
  with_asset, shown, get_asset-shown, db_post-upsert, asset_at-db_post,
}

pub and_right : (x y : Bool) → (x && y) ≡ true → y ≡ true
and_right x y h = ground arith

module _ {P : Type 0} (c : Base64) (a : String) (body : PostAssetBody P) (now : ℕ)
    (s : Configuration) (t : IsAssets s) (asset : Doc) (old : AssetResponse)
    (here : asset_at a s ≡ some asset) (shows : format_asset asset ≡ ok old) where
  old-IsShown : IsShown asset old
  old-IsShown = IsShown-format_asset asset old (asset_at-IsAssetDoc a s t asset here) shows

  -- The asset that is found has the identifier that was asked for.
  asset_id_here : old.asset_id ≡ a
  asset_id_here =
      let (h, row) =
        first-All _ (is_row "asset_id" public_owner a) s.doc_db_asset.documents asset
          t.assets.complete here in
      key_of_value "asset_id" a old.asset_id asset old-IsShown.asset_id (and_right _ _ row)

  abbrev written : Doc
  written = updated_doc c body asset

  written-IsShown : IsShown written (updated_asset c body old)
  written-IsShown = (updated_doc-IsShown c body asset old old-IsShown).1

  stored-IsShown : IsShown (put "owner" public_owner written) (updated_asset c body old)
  stored-IsShown = (updated_doc-IsShown c body asset old old-IsShown).0

  key : get "asset_id" (put "owner" public_owner written) ≡ some a
  key = stored-IsShown.asset_id ∙ ap some asset_id_here

  abbrev after_asset : Configuration
  after_asset = with_asset a written s

  after_asset-IsAssets : IsAssets after_asset
  after_asset-IsAssets =
      let w = written-IsShown in
      subst IsAssets (ap (λ r. r.1) (db_post-upsert s t a written key)) (
        db_post-IsAssets s t written (
          (_, w.asset_id),
          (
            (_, w.raw_id),
            (
              (_, w.group_id),
              (
                (_, w.kind),
                (
                  (_, w.name),
                  ((_, w.images), ((_, w.thumbnails), ((_, w.tags), ((_, w.description), tt)))),
                ),
              ),
            ),
          ),
        ))

  policy_change-asset_at :
      (policy : Option (AccessPolicyBody P)) (related_id b : String)
      → ((policy_change a related_id policy now after_asset).0 ≡ ok tt)
        × IsAssets (policy_change a related_id policy now after_asset).1
        × (asset_at b (policy_change a related_id policy now after_asset).1
            ≡ asset_at b after_asset)
  unfolding pure
  policy_change-asset_at none related_id b = (refl, after_asset-IsAssets, refl)
  policy_change-asset_at (some policy) related_id b =
      let doc = doc_default a related_id policy now in
      let e = create_policy-upsert after_asset after_asset-IsAssets a "*" doc refl refl in
      (
        ap (λ r. r.0) e,
        create_policy-IsAssets after_asset after_asset-IsAssets a "*" doc refl refl
            (doc_access-IsPolicyDoc _ _ _ _ _ _ _),
        rw e refl,
      )

  related-found :
      (policy : Option (AccessPolicyBody P)) → (r : String) × (related_of asset policy ≡ ok r)
  related-found none = ("", refl)
  related-found (some policy) = (old.raw_id, rw (field_of, old-IsShown.raw_id) refl)

  found_after :
      (b : String)
      → asset_at b after_asset
        ≡ (if a == b then some (put "owner" public_owner written) else asset_at b s)
  found_after b = rw (db_post-upsert s t a written key) at (asset_at-db_post s t a written key b)

  shown_after :
      (test : Bool) (o : Option Doc)
      → shown (if test then some (put "owner" public_owner written) else o)
        ≡ (if test then ok (updated_asset c body old) else shown o)
  shown_after true o =
      format_asset-shown (put "owner" public_owner written) (updated_asset c body old)
        stored-IsShown
  shown_after false o = refl

  -- Updating an asset that exists returns it with the given name, description, tags and group,
  -- a path of a group turned into its identifier, and what is not given as it was; it is then read
  -- as it was returned, and every other asset as before.
  pub post_asset-get_asset :
      (b : String)
      → ((post_asset c a body now s).0 ≡ ok (updated_asset c body old))
        × ((get_asset b (post_asset c a body now s).1).0
            ≡ (if a == b then ok (updated_asset c body old) else (get_asset b s).0))
  unfolding post_asset ◌>>=◌ lift
  post_asset-get_asset b =
      let (r, e) = related-found body.default_access_policy in
      let (o, k, same) = policy_change-asset_at body.default_access_policy r b in
      rw (db_get-asset_at s t a, here, db_post-upsert s t a written key, e, o)
        (
          format_asset-shown written (updated_asset c body old) written-IsShown,
          ap (λ z. z.0)
                (get_asset-shown (policy_change a r body.default_access_policy now after_asset).1 k
                  b)
              ∙ ap shown (same ∙ found_after b)
              ∙ shown_after (a == b) (asset_at b s)
              ∙ rw (get_asset-shown s t b) refl,
        )
