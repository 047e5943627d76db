-- ===== src/Examples/AssetChanges.antt =====
-- Changing and deleting the asset of the sample.
use py_youwol.Prelude.{String, ◌≡◌, refl, none, some}
use py_youwol.Prelude.Exec.{ok, bind_ok}
use py_youwol.Assets.Models.{PostAssetBody, AssetResponse}
use py_youwol.Assets.Docs.{format_asset}
use py_youwol.Assets.Handlers.{post_asset, get_asset}
use py_youwol.Assets.Laws.Columns.{updated_asset}
use py_youwol.Assets.Laws.Update.{post_asset-get_asset}
use py_youwol.Examples.AssetSample.{plain, asset_doc, state, state-IsAssets}

abbrev shown_asset : AssetResponse
shown_asset = record {
  asset_id = "a1";
  kind = "story";
  raw_id = "r1";
  name = "story";
  images = "[]";
  thumbnails = "[]";
  tags = "[]";
  description = "";
  group_id = "/youwol-users/admins";
}

asset_doc-shown : format_asset asset_doc ≡ ok shown_asset
unfolding format_asset bind_ok
asset_doc-shown = refl

abbrev renaming : PostAssetBody String
renaming = record {
  name = some "tale";
  description = none;
  tags = none;
  group_id = some "/youwol-users";
  default_access_policy = none;
}

post_asset-get_asset_example :
    ((post_asset plain "a1" renaming 400 state).0 ≡ ok (updated_asset plain renaming shown_asset))
    × ((get_asset "a1" (post_asset plain "a1" renaming 400 state).1).0
        ≡ ok (updated_asset plain renaming shown_asset))
post_asset-get_asset_example =
    post_asset-get_asset plain "a1" renaming 400 state state-IsAssets asset_doc shown_asset refl
      asset_doc-shown "a1"
