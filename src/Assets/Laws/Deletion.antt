-- ===== src/Assets/Laws/Deletion.antt =====
-- `delete_asset` of assets.py: the asset, its policies and its files.
use py_youwol.Prelude.{
  ◌≤◌, String, false, ◌≡◌, not, ◌&&◌, none, some, ◌==◌, ◌<>◌, if◌then◌else◌, select, length,
}
use py_youwol.Prelude.Dict.{get, member}
use py_youwol.DocDb.Models.{Doc}
use py_youwol.DocDb.Write.{write}
use py_youwol.DocDb.Table.Rows.{has_value, is_row}
use py_youwol.Assets.Models.{Configuration}
use py_youwol.Assets.Store.{public_owner, is_under}
use py_youwol.Assets.Handlers.{has_magic, metadata_of}
use py_youwol.Assets.Laws.Tables.{IsAssets, asset_at, policy_at}
use py_youwol.Assets.Laws.Files.{IsApart, is_metadata}
use py_youwol.Assets.Laws.Listed.{is_visible}

module _ (a : String) (s : Configuration) (t : IsAssets s) (asset : Doc) (kind : String)
    (here : asset_at a s ≡ some asset) (of_kind : get "kind" asset ≡ some kind) where
  -- The state without the document of the asset and the media in the storage.
  abbrev without_asset : Configuration
  without_asset = record s {
    doc_db_asset =
        write (select (λ d. not (is_row "asset_id" public_owner a d)) s.doc_db_asset.documents)
          s.doc_db_asset;
    storage =
        select (λ (o, path). not (o == public_owner && is_under ((kind <> ("/" <> a)) <> "/") path))
          s.storage;
  }

  -- The folder of the files of the asset.
  abbrev dir : String
  dir = kind <> ("/" <> (a <> "/"))

  module _ (few : length (select (has_value "asset_id" a) s.doc_db_access_policy.documents) ≤ 1000)
      (no_magic : has_magic dir ≡ false) (apart : IsApart s.file_system) where
    -- What is left of the state.
    record IsLeft (v : Configuration) : Type 0 where
      tables : IsAssets v
      assets_left : (b : String) → asset_at b v ≡ (if a == b then none else asset_at b s)
      policies_left : (b h : String) → policy_at b h v ≡ (if a == b then none else policy_at b h s)
      files_left :
          (p : String)
          → is_metadata p ≡ false
          → (member p v.file_system ≡ (member p s.file_system && not (is_visible dir p)))
            × (member (metadata_of p) v.file_system ≡ (
                member (metadata_of p) s.file_system
                && not (member p s.file_system && is_visible dir p)))
