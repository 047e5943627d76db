-- ===== src/Assets/Laws/Removals.antt =====
-- What `delete_asset` of assets.py removes besides the asset: its policies and its files.
use py_youwol.Prelude.{
  String, Bool, true, ◌≡◌, refl, ◌∙◌, ap, ◌&&◌, Option, none, some, List, [], ◌∷◌, map, arith, All,
  ◌==◌, eq_refl, if◌then◌else◌, select, any, first,
}
use py_youwol.Prelude.Dict.{get}
use py_youwol.Prelude.Exec.{ok, gather}
use py_youwol.DocDb.Models.{Doc}
use py_youwol.DocDb.Table.Rows.{has_value}
use py_youwol.DocDb.Pairs.Cells.{is_cell}
use py_youwol.DocDb.Pairs.Listing.{IsOf}
use py_youwol.Assets.Models.{Configuration}
use py_youwol.Assets.Store.{public_owner, delete_policy}
use py_youwol.Assets.Laws.Tables.{
  IsAssets, policy_at, delete_policy-select, delete_policy-IsAssets, policy_at-delete_policy,
}

abbrev pub OfAsset : String → Doc → Type 0
OfAsset a = IsOf "asset_id" "consumer_group_id" public_owner a

-- The state has the tables and files of another, but for the policies.
pub record IsButPolicies (s u : Configuration) : Type 0 where
  pub same_assets : u.doc_db_asset ≡ s.doc_db_asset
  pub same_files : u.file_system ≡ s.file_system
  pub same_storage : u.storage ≡ s.storage

pub units : List Doc → List (Unit {0})
units [] = []
units (d ∷ docs) = tt ∷ units docs

if_nested :
    (x y z : Bool) (o : Option Doc)
    → (if x && z then none else if x && y then none else o)
      ≡ (if x && (if y then true else z) then none else o)
if_nested x y z o = ground arith

same_group :
    (a g h : String) (d : Doc)
    → get "asset_id" d ≡ some a
    → get "consumer_group_id" d ≡ some g
    → is_cell "asset_id" "consumer_group_id" a h d ≡ (g == h)
same_group a g h d ea eg = ground (arith, ea, eg, eq_refl a)

-- Deleting documents of the asset one by one.
pub deletions_lem :
    (a : String) (docs : List Doc) (s : Configuration)
    → IsAssets s
    → All (OfAsset a) docs
    → (u : Configuration) × (gather (map delete_policy docs) s ≡ (ok (units docs), u))
      × IsAssets u
      × IsButPolicies s u
      × ((b h : String)
          → policy_at b h u ≡ (
              if a == b && any (is_cell "asset_id" "consumer_group_id" a h) docs
              then none
              else policy_at b h s))
unfolding gather units
deletions_lem a [] s t h = (
  s,
  refl,
  t,
  record { same_assets = refl; same_files = refl; same_storage = refl },
  λ b h. ground arith,
)
deletions_lem a (d ∷ docs) s t ((c, e), of) =
    let ea = c.first_get ∙ ap some e in
    let g = c.second_key in
    let step = delete_policy-select s t a g d ea c.second_get in
    let t1 = delete_policy-IsAssets s t a g d ea c.second_get in
    let (u, run, t2, but, at2) = deletions_lem a docs (delete_policy d s).1 t1 of in
    (
      u,
      rw (ap (λ r. r.0) step, run) refl,
      t2,
      record {
        same_assets = but.same_assets ∙ rw step refl;
        same_files = but.same_files ∙ rw step refl;
        same_storage = but.same_storage ∙ rw step refl;
      },
      λ b h.
          at2 b h
          ∙ rw
              (
                policy_at-delete_policy s t a g d ea c.second_get b h,
                same_group a g h d ea c.second_get,
              )
              (if_nested (a == b) (g == h) _ (policy_at b h s)),
    )

-- All the policies of an asset are among its documents.
pub gone :
    (a h : String) (ds : List Doc)
    → (if any (is_cell "asset_id" "consumer_group_id" a h) (select (has_value "asset_id" a) ds)
        then none
        else first (is_cell "asset_id" "consumer_group_id" a h) ds)
      ≡ none
gone a h [] = refl
gone a h (d ∷ ds) = ground (arith, gone a h ds)
