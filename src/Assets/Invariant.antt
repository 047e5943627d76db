-- ===== src/Assets/Invariant.antt =====
-- The helpers of the assets and their reading endpoints keep the two tables well-formed.
pub mod Serve
use py_youwol.Prelude.{
  ℕ, String, Bool, true, false, inl, inr, Bool-cases, ◌≡◌, refl, sym, ◌∙◌, ap, Option, none, some,
  List, [], ◌∷◌, ◌++◌, map, arith, All, ◌==◌, if◌then◌else◌,
}
use mathlib.Core.Path.{subst}
use py_youwol.Prelude.Int.{ℤ}
use py_youwol.Prelude.Dict.{get, put, pop, get-pop, member}
use py_youwol.Prelude.Exec.{Result, ok, err, Exec, pure, lift, ◌>>=◌, gather}
use py_youwol.Prelude.Exec.Keeps.{
  Keeps, Keeps-pure, Keeps-raise, Keeps-lift, Keeps-if, Keeps-bind, Keeps-gather, Keeps-bind_with,
}
use py_youwol.DocDb.Models.{Doc, QueryBody}
use py_youwol.DocDb.Write.{write, delete_document}
use py_youwol.DocDb.Table.Rows.{HasColumn, row, is_row}
use py_youwol.DocDb.Table.Reads.{IsTable, found}
use py_youwol.DocDb.Table.Store.{HasColumn-put, All-HasColumn-put, update_document-IsTable}
use py_youwol.DocDb.Table.Writes.{update_document-upsert}
use py_youwol.DocDb.Table.Removal.{
  delete_document-keeps, remove_items-keeps, remove_item-All, delete_any-IsTable,
  delete_any-IsPairTable,
}
use py_youwol.TreeDb.Invariant.Every.{first-All}
use py_youwol.Groups.{Base64, User}
use py_youwol.Assets.Models.{
  Json, assets_table, AccessPolicyBody, NewAssetBody, PostAssetBody, AssetResponse, Configuration,
}
use py_youwol.Assets.Docs.{format_asset}
use py_youwol.Assets.Store.{
  public_owner, on_assets, db_get, db_post, db_delete, query_policies, create_policy, delete_policy,
  delete_group, get_asset_implementation,
}
use py_youwol.Assets.Access.{
  doc_access, put_access_policy, delete_access_policy, policy_or_404, get_specific_policy,
  get_inherited_policy, get_access_policy,
}
use py_youwol.Assets.Permissions.{
  get_policies_permission, get_consumer_permission, get_permissions, access_info, with_policy,
}
use py_youwol.Assets.Handlers.{
  create_asset, new_attributes, merged, policy_change, post_asset, has_magic, list_objects,
  remove_object, delete_asset, get_asset,
}
use py_youwol.Assets.Laws.Tables.{
  IsAssets, IsPolicyDoc, doc_access-IsPolicyDoc, asset_at, create_policy-IsAssets, db_get-asset_at,
}

-- The document of an asset with all its columns.
abbrev pub IsAssetDoc : Doc → Type 0
IsAssetDoc doc = All (HasColumn doc) assets_table.columns

pub db_get-Keeps : (id : String) → Keeps IsAssets (db_get id)
unfolding db_get
db_get-Keeps id = record { at = λ s h. h }

pub query_policies-Keeps : (body : QueryBody) → Keeps IsAssets (query_policies body)
unfolding query_policies
query_policies-Keeps body = record { at = λ s h. h }

pub create_policy-Keeps :
    (a g : String) (doc : Doc)
    → get "asset_id" (put "owner" public_owner doc) ≡ some a
    → get "consumer_group_id" (put "owner" public_owner doc) ≡ some g
    → IsPolicyDoc doc
    → Keeps IsAssets (create_policy doc)
create_policy-Keeps a g doc ea eg d = record {
  at = λ s h. create_policy-IsAssets s h a g doc ea eg d;
}

pub delete_policy-Keeps : (doc : Doc) → Keeps IsAssets (delete_policy doc)
unfolding delete_policy
delete_policy-Keeps doc = record {
  at = λ s h. record {
    assets = h.assets;
    schema = h.schema;
    policies =
        delete_any-IsPairTable "asset_id" "consumer_group_id" public_owner doc
          s.doc_db_access_policy h.policies;
    shaped =
        delete_document-keeps (λ db. All IsPolicyDoc db.documents) s.doc_db_access_policy doc
          public_owner
          (λ items.
            remove_items-keeps (All IsPolicyDoc) (remove_item-All IsPolicyDoc) items
              s.doc_db_access_policy.documents h.shaped)
          h.shaped;
  };
}

pub delete_group-Keeps : (prefix owner : String) → Keeps IsAssets (delete_group prefix owner)
unfolding delete_group
delete_group-Keeps prefix owner = record {
  at = λ s h. record {
    assets = h.assets;
    schema = h.schema;
    policies = h.policies;
    shaped = h.shaped;
  };
}

pub list_objects-Keeps : (prefix : String) → Keeps IsAssets (list_objects prefix)
unfolding list_objects
list_objects-Keeps prefix = record {
  at = λ s h. elim (Bool-cases (has_magic prefix)) [ inl t ↦ rw t h | inr n ↦ rw n h ];
}

pub remove_object-Keeps : (path : String) → Keeps IsAssets (remove_object path)
unfolding remove_object
remove_object-Keeps path = record {
  at = λ s h. elim (Bool-cases (member path s.file_system)) [
    | inl t ↦
        rw t (record {
          assets = h.assets;
          schema = h.schema;
          policies = h.policies;
          shaped = h.shaped;
        })
    | inr n ↦ rw n h
  ];
}

pub delete_doc-Keeps : (doc : Doc) → Keeps IsAssets (on_assets (delete_document doc public_owner))
unfolding on_assets
delete_doc-Keeps doc = record {
  at = λ s h. record {
    assets = delete_any-IsTable "asset_id" public_owner doc s.doc_db_asset h.assets;
    schema =
        delete_document-keeps (λ db. db.table_body ≡ assets_table) s.doc_db_asset doc public_owner
          (λ items. h.schema) h.schema;
    policies = h.policies;
    shaped = h.shaped;
  };
}

module _ (s : Configuration) (h : IsAssets s) (doc : Doc) (d : IsAssetDoc doc) where
  key_of : HasColumn (put "owner" public_owner doc) "asset_id"
  key_of = HasColumn-put doc "owner" public_owner "asset_id" d.0

  pub db_post-IsAssets : IsAssets (db_post doc s).1
  unfolding db_post on_assets
  db_post-IsAssets = record {
    assets =
        update_document-IsTable "asset_id" key_of.0 public_owner doc s.doc_db_asset h.assets
          key_of.1 (subst (λ tb. All (HasColumn doc) tb.columns) (sym h.schema) d);
    schema =
        rw
          (update_document-upsert "asset_id" key_of.0 public_owner doc s.doc_db_asset h.assets
            key_of.1)
          h.schema;
    policies = h.policies;
    shaped = h.shaped;
  }

pub db_post-Keeps : (doc : Doc) → IsAssetDoc doc → Keeps IsAssets (db_post doc)
db_post-Keeps doc d = record { at = λ s h. db_post-IsAssets s h doc d }

some_of_found : (o : Option Doc) (doc : Doc) → found o ≡ ok doc → o ≡ some doc
some_of_found none doc e = cc
some_of_found (some d) doc e = cc

pub asset_at-IsAssetDoc :
    (id : String) (s : Configuration)
    → IsAssets s
    → (doc : Doc) → asset_at id s ≡ some doc
    → IsAssetDoc doc
asset_at-IsAssetDoc id s h doc e =
    subst (λ tb. All (HasColumn doc) tb.columns) h.schema
      (first-All _ (is_row "asset_id" public_owner id) s.doc_db_asset.documents doc
        h.assets.complete e).0.1

-- A document that is read has all its columns.
pub db_get-IsAssetDoc :
    (id : String) (s : Configuration)
    → IsAssets s
    → (doc : Doc) → (db_get id s).0 ≡ ok doc
    → IsAssetDoc doc
db_get-IsAssetDoc id s h doc e =
    asset_at-IsAssetDoc id s h doc
      (some_of_found (asset_at id s) doc (ap (λ r. r.0) (sym (db_get-asset_at s h id)) ∙ e))

pub ruleset block_rules =
    (Keeps-bind, Keeps-pure, Keeps-raise, Keeps-lift, Keeps-if, db_get-Keeps, query_policies-Keeps)

pub put_access_policy-Keeps :
    (j : Json) (a g : String) (body : AccessPolicyBody j.Parameters) (now : ℕ)
    → Keeps IsAssets (put_access_policy j a g body now)
unfolding put_access_policy
put_access_policy-Keeps j a g body now = Keeps-bind _ _ (db_get-Keeps a) λ asset.
    Keeps-bind _ _ (Keeps-lift _)
      λ related_id. create_policy-Keeps a g _ refl refl (doc_access-IsPolicyDoc _ _ _ _ _ _ _)

pub delete_access_policy-Keeps : (a g : String) → Keeps IsAssets (delete_access_policy a g)
unfolding delete_access_policy
delete_access_policy-Keeps a g = delete_policy-Keeps _

gather_query-Keeps :
    (bodies : String → QueryBody) (gs : List String)
    → All (Keeps IsAssets) (map (λ g. query_policies (bodies g)) gs)
gather_query-Keeps bodies [] = tt
gather_query-Keeps bodies (g ∷ gs) = (query_policies-Keeps (bodies g), gather_query-Keeps bodies gs)

policy_or_404-Keeps : (j : Json) (docs : List Doc) → Keeps IsAssets (policy_or_404 j docs)
policy_or_404-Keeps j [] = Keeps-raise _
policy_or_404-Keeps j (d ∷ ds) = Keeps-lift _

module _ (j : Json) (c : Base64) where
  get_inherited_policy-Keeps : (a g : String) → Keeps IsAssets (get_inherited_policy j c a g)
  unfolding get_inherited_policy
  get_inherited_policy-Keeps a g = Keeps-bind _ _ (Keeps-lift _) λ above.
      Keeps-bind _ _ (Keeps-gather _ (gather_query-Keeps _ (g ∷ above)))
        λ specifics. Keeps-bind _ _ (query_policies-Keeps _) λ default. Keeps-lift _

  pub get_access_policy-Keeps :
      (inherited : Bool) (a g : String) → Keeps IsAssets (get_access_policy j c inherited a g)
  unfolding get_access_policy get_specific_policy
  get_access_policy-Keeps false a g = search (block_rules, policy_or_404-Keeps)
  get_access_policy-Keeps true a g = search (block_rules, get_inherited_policy-Keeps)

module _ (c : Base64) (j : Json) (distinct : List String → List String) where
  get_consumer_permission-Keeps :
      (a : String) (gs : List String) (now : ℕ)
      → Keeps IsAssets (get_consumer_permission c j distinct a gs now)
  unfolding get_consumer_permission get_policies_permission
  get_consumer_permission-Keeps a gs now = Keeps-bind _ _ (query_policies-Keeps _) λ default.
      Keeps-bind _ _ (Keeps-lift _) λ opened.
        Keeps-if opened _ _ (Keeps-pure _)
          (Keeps-bind _ _ (Keeps-gather _ (gather_query-Keeps _ gs)) λ specifics. Keeps-lift _)

  pub get_permissions-Keeps :
      (user : User) (a : String) (now : ℕ)
      → Keeps IsAssets (get_permissions c j distinct user a now)
  unfolding get_permissions
  get_permissions-Keeps user a now = search (block_rules, get_consumer_permission-Keeps) depth 9

  with_policies-Keep :
      (a : String) (gs : List String) → All (Keeps IsAssets) (map (with_policy c j distinct a) gs)
  with_policies-Keep a [] = tt
  with_policies-Keep a (g ∷ gs) = (
    Keeps-bind _ _ (get_access_policy-Keeps j c true a g) (λ p. Keeps-pure _),
    with_policies-Keep a gs,
  )

  pub get_asset-Keeps : (a : String) → Keeps IsAssets (get_asset_implementation a)
  unfolding get_asset_implementation
  get_asset-Keeps a = search block_rules

  pub access_info-Keeps :
      (date : ℤ → String) (user : User) (a : String) (now : ℕ)
      → Keeps IsAssets (access_info c j distinct date user a now)
  unfolding access_info
  access_info-Keeps date user a now = Keeps-bind _ _ (query_policies-Keeps _) λ policies.
      Keeps-bind _ _ (get_asset-Keeps a) λ asset.
        Keeps-bind _ _ (get_permissions-Keeps user a now) λ permissions.
          Keeps-bind _ _ (Keeps-lift _) λ owner_name. Keeps-bind _ _ (Keeps-lift _) λ all_groups.
            Keeps-bind _ _ (Keeps-gather _ (with_policies-Keep a (distinct all_groups)))
              λ groups. search (block_rules, get_access_policy-Keeps) depth 9
