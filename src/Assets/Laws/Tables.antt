-- ===== src/Assets/Laws/Tables.antt =====
-- The two tables of the assets, well-formed, and what the helpers of utils.py read and write there.
use py_youwol.Prelude.{
  ℕ, inl, inr, Bool-cases, All, [], ◌∷◌, String, Bool, ◌≡◌, refl, ◌∙◌, ap, Option, none, some, List,
  arith, select, not, ◌&&◌, ◌==◌, if◌then◌else◌,
}
use py_youwol.Prelude.Dict.{get, put, get-put}
use py_youwol.Prelude.Exec.{ok}
use py_youwol.DocDb.Models.{Doc}
use py_youwol.DocDb.Write.{write}
use py_youwol.DocDb.Table.Rows.{HasColumn, row, upsert}
use py_youwol.DocDb.Table.Reads.{IsTable, found, get_document-row}
use py_youwol.DocDb.Table.Store.{All-HasColumn-put}
use py_youwol.DocDb.Pairs.Cells.{is_cell, cell, listed, cell-upsert, cell-select}
use py_youwol.DocDb.Pairs.Methods.{
  IsPairTable, query-cell, update_document-cell, update_document-IsPairTable, delete_document-cell,
  delete_document-IsPairTable,
}
use py_youwol.Assets.Models.{assets_table, access_policy, Configuration}
use py_youwol.Assets.Store.{public_owner, db_get, query_policies, create_policy, delete_policy}
use py_youwol.Assets.Access.{query_body, doc_access}

-- The document of a policy with all its columns.
abbrev pub IsPolicyDoc : Doc → Type 0
IsPolicyDoc doc = All (HasColumn doc) access_policy.columns

-- Every asset has a key of its own and all its columns; every policy has an asset and a group that no
-- other has, the public owner and all its columns.
pub record IsAssets (s : Configuration) : Type 0 where
  pub assets : IsTable "asset_id" s.doc_db_asset
  pub schema : s.doc_db_asset.table_body ≡ assets_table
  pub policies : IsPairTable "asset_id" "consumer_group_id" public_owner s.doc_db_access_policy
  pub shaped : All IsPolicyDoc s.doc_db_access_policy.documents

-- The document of an asset, and that of the policy of a group.
abbrev pub asset_at : String → Configuration → Option Doc
asset_at asset_id s = row "asset_id" public_owner asset_id s.doc_db_asset.documents

abbrev pub policy_at : String → String → Configuration → Option Doc
policy_at asset_id group_id s =
    cell "asset_id" "consumer_group_id" asset_id group_id s.doc_db_access_policy.documents

abbrev pub with_policies : List Doc → Configuration → Configuration
with_policies docs s = record s { doc_db_access_policy = write docs s.doc_db_access_policy }

abbrev pub is_policy : String → String → Doc → Bool
is_policy = is_cell "asset_id" "consumer_group_id"

abbrev owned : Doc → Doc
owned doc = put "owner" public_owner doc

upsert-IsPolicyDoc :
    (p : Doc → Bool) (x : Doc) (ds : List Doc)
    → IsPolicyDoc x
    → All IsPolicyDoc ds
    → All IsPolicyDoc (upsert p x ds)
unfolding upsert
upsert-IsPolicyDoc p x [] hx h = (hx, tt)
upsert-IsPolicyDoc p x (d ∷ ds) hx h = elim (Bool-cases (p d)) [
  | inl t ↦ rw t ((hx, h.1))
  | inr n ↦ rw n ((h.0, upsert-IsPolicyDoc p x ds hx h.1))
]

select-IsPolicyDoc :
    (p : Doc → Bool) (ds : List Doc) → All IsPolicyDoc ds → All IsPolicyDoc (select p ds)
select-IsPolicyDoc p [] h = tt
select-IsPolicyDoc p (d ∷ ds) h = elim (Bool-cases (p d)) [
  | inl t ↦ rw t ((h.0, select-IsPolicyDoc p ds h.1))
  | inr n ↦ rw n (select-IsPolicyDoc p ds h.1)
]

-- What the endpoints write has every column.
pub doc_access-IsPolicyDoc :
    (asset_id related_id group_id read share parameters : String) (now : ℕ)
    → IsPolicyDoc (doc_access asset_id related_id group_id read share parameters now)
doc_access-IsPolicyDoc asset_id related_id group_id read share parameters now =
    ((_, refl), ((_, refl), ((_, refl), ((_, refl), ((_, refl), ((_, refl), ((_, refl), tt)))))))

module _ (s : Configuration) (t : IsAssets s) where
  pub db_get-asset_at : (asset_id : String) → db_get asset_id s ≡ (found (asset_at asset_id s), s)
  unfolding db_get
  db_get-asset_at asset_id =
      ap (λ r. (r, s)) (get_document-row "asset_id" asset_id public_owner s.doc_db_asset t.assets)

  pub query_policies-policy_at :
      (asset_id group_id : String)
      → query_policies (query_body asset_id group_id) s
        ≡ (ok (listed (policy_at asset_id group_id s)), s)
  unfolding query_policies
  query_policies-policy_at asset_id group_id =
      ap (λ r. (r, s))
        (query-cell "asset_id" "consumer_group_id" public_owner asset_id group_id
          s.doc_db_access_policy t.policies)

  module _ (a g : String) (doc : Doc) where
    module _ (ea : get "asset_id" (owned doc) ≡ some a)
        (eg : get "consumer_group_id" (owned doc) ≡ some g) where
      pub create_policy-upsert : create_policy doc s ≡ (
        ok tt,
        with_policies (upsert (is_policy a g) (owned doc) s.doc_db_access_policy.documents) s,
      )
      unfolding create_policy
      create_policy-upsert =
          rw
            (update_document-cell "asset_id" "consumer_group_id" public_owner a g doc
              s.doc_db_access_policy t.policies ea eg)
            refl

      pub create_policy-IsAssets : IsPolicyDoc doc → IsAssets (create_policy doc s).1
      unfolding create_policy
      create_policy-IsAssets d = record {
        assets = t.assets;
        schema = t.schema;
        policies =
            update_document-IsPairTable "asset_id" "consumer_group_id" public_owner a g doc
              s.doc_db_access_policy t.policies ea eg;
        shaped =
            rw
              (update_document-cell "asset_id" "consumer_group_id" public_owner a g doc
                s.doc_db_access_policy t.policies ea eg)
              (upsert-IsPolicyDoc (is_policy a g) (owned doc) s.doc_db_access_policy.documents
                (All-HasColumn-put doc "owner" public_owner access_policy.columns d) t.shaped);
      }

      pub policy_at-create_policy :
          (b h : String)
          → policy_at b h (create_policy doc s).1
            ≡ (if a == b && g == h then some (owned doc) else policy_at b h s)
      policy_at-create_policy b h = rw create_policy-upsert (
          cell-upsert "asset_id" "consumer_group_id" public_owner a g (owned doc) ea eg
            (get-put "owner" "owner" public_owner doc ∙ ground arith) b h
            s.doc_db_access_policy.documents t.policies.paired)

    module _ (ea : get "asset_id" doc ≡ some a) (eg : get "consumer_group_id" doc ≡ some g) where
      pub delete_policy-select : delete_policy doc s ≡ (
        ok tt,
        with_policies (select (λ d. not (is_policy a g d)) s.doc_db_access_policy.documents) s,
      )
      unfolding delete_policy
      delete_policy-select =
          rw
            (delete_document-cell "asset_id" "consumer_group_id" public_owner a g doc
              s.doc_db_access_policy t.policies ea eg)
            refl

      pub delete_policy-IsAssets : IsAssets (delete_policy doc s).1
      unfolding delete_policy
      delete_policy-IsAssets = record {
        assets = t.assets;
        schema = t.schema;
        policies =
            delete_document-IsPairTable "asset_id" "consumer_group_id" public_owner a g doc
              s.doc_db_access_policy t.policies ea eg;
        shaped =
            rw
              (delete_document-cell "asset_id" "consumer_group_id" public_owner a g doc
                s.doc_db_access_policy t.policies ea eg)
              (select-IsPolicyDoc (λ d. not (is_policy a g d)) s.doc_db_access_policy.documents
                t.shaped);
      }

      pub policy_at-delete_policy :
          (b h : String)
          → policy_at b h (delete_policy doc s).1
            ≡ (if a == b && g == h then none else policy_at b h s)
      policy_at-delete_policy b h = rw delete_policy-select (
          cell-select "asset_id" "consumer_group_id" public_owner a g b h
            s.doc_db_access_policy.documents t.policies.paired)
