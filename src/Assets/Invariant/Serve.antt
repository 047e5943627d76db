-- ===== src/Assets/Invariant/Serve.antt =====
-- The endpoints of assets.py keep the tables, and so does every sequence of requests.
use py_youwol.Prelude.{
  ℕ, String, Bool, false, ◌≡◌, refl, ◌∙◌, Option, none, some, List, [], ◌∷◌, map, All, ◌==◌,
}
use py_youwol.Prelude.Int.{ℤ}
use py_youwol.Prelude.Dict.{put, pop, get-pop}
use py_youwol.Prelude.Exec.Keeps.{
  Keeps, Keeps-pure, Keeps-lift, Keeps-if, Keeps-bind, Keeps-gather, Keeps-bind_with,
}
use py_youwol.DocDb.Models.{Doc}
use py_youwol.DocDb.Table.Rows.{HasColumn}
use py_youwol.DocDb.Table.Store.{All-HasColumn-put}
use py_youwol.Groups.{Base64, User}
use py_youwol.Assets.Models.{
  Json, assets_table, AccessPolicyBody, NewAssetBody, PostAssetBody, Configuration,
}
use py_youwol.Assets.Store.{db_get, db_delete, delete_policy}
use py_youwol.Assets.Access.{put_access_policy, delete_access_policy, get_access_policy}
use py_youwol.Assets.Permissions.{get_permissions, access_info}
use py_youwol.Assets.Handlers.{
  create_asset, new_attributes, merged, policy_change, post_asset, remove_objects, delete_asset,
  get_asset,
}
use py_youwol.Assets.Laws.Tables.{IsAssets, doc_access-IsPolicyDoc}
use py_youwol.Assets.Invariant.{
  block_rules, IsAssetDoc, db_get-Keeps, query_policies-Keeps, create_policy-Keeps,
  delete_policy-Keeps, delete_group-Keeps, list_objects-Keeps, remove_object-Keeps,
  delete_doc-Keeps, db_post-Keeps, db_get-IsAssetDoc, put_access_policy-Keeps,
  delete_access_policy-Keeps, get_access_policy-Keeps, get_permissions-Keeps, get_asset-Keeps,
  access_info-Keeps,
}

create_asset-Keeps :
    {P : Type 0} (c : Base64) (user : User) (body : NewAssetBody P) (now : ℕ)
    → Keeps IsAssets (create_asset c user body now)
unfolding create_asset
create_asset-Keeps c user body now =
    Keeps-bind _ _
      (db_post-Keeps _ (
        (_, refl),
        (
          (_, refl),
          (
            (_, refl),
            ((_, refl), ((_, refl), ((_, refl), ((_, refl), ((_, refl), ((_, refl), tt)))))),
          ),
        ),
      ))
      λ _.
        Keeps-bind _ _
          (Keeps-if _ _ _ (Keeps-pure _)
            (create_policy-Keeps _ "*" _ refl refl (doc_access-IsPolicyDoc _ _ _ _ _ _ _)))
          λ _. Keeps-lift _

merged-IsAssetDoc : (attributes doc : Doc) → IsAssetDoc doc → IsAssetDoc (merged doc attributes)
merged-IsAssetDoc [] doc d = d
merged-IsAssetDoc ((key, value) ∷ attributes) doc d =
    merged-IsAssetDoc attributes (put key value doc)
      (All-HasColumn-put doc key value assets_table.columns d)

HasColumn-pop :
    (doc : Doc) (key column : String)
    → (key == column) ≡ false
    → HasColumn doc column
    → HasColumn (pop key doc) column
HasColumn-pop doc key column n (v, e) = (v, get-pop column key doc ∙ rw n e)

pop-All :
    (doc : Doc) (key : String) (columns : List String)
    → All (λ column. (key == column) ≡ false) columns
    → All (HasColumn doc) columns
    → All (HasColumn (pop key doc)) columns
pop-All doc key [] n d = tt
pop-All doc key (column ∷ columns) n d =
    (HasColumn-pop doc key column n.0 d.0, pop-All doc key columns n.1 d.1)

pop-IsAssetDoc : (doc : Doc) → IsAssetDoc doc → IsAssetDoc (pop "defaultAccessPolicy" doc)
pop-IsAssetDoc doc =
    pop-All doc "defaultAccessPolicy" assets_table.columns
      (refl, (refl, (refl, (refl, (refl, (refl, (refl, (refl, (refl, tt)))))))))

policy_change-Keeps :
    {P : Type 0} (a related_id : String) (policy : Option (AccessPolicyBody P)) (now : ℕ)
    → Keeps IsAssets (policy_change a related_id policy now)
policy_change-Keeps a related_id none now = Keeps-pure tt
policy_change-Keeps a related_id (some policy) now =
    create_policy-Keeps a "*" _ refl refl (doc_access-IsPolicyDoc _ _ _ _ _ _ _)

post_asset-Keeps :
    {P : Type 0} (c : Base64) (a : String) (body : PostAssetBody P) (now : ℕ)
    → Keeps IsAssets (post_asset c a body now)
unfolding post_asset
post_asset-Keeps c a body now =
    Keeps-bind_with (db_get a) _ (db_get-Keeps a) (db_get-IsAssetDoc a) λ asset d.
      Keeps-bind _ _
        (db_post-Keeps _ (
          pop-IsAssetDoc (merged asset (new_attributes c body))
            (merged-IsAssetDoc (new_attributes c body) asset d)))
        λ _. Keeps-bind _ _ (Keeps-lift _) λ related_id.
          Keeps-bind _ _ (policy_change-Keeps a related_id body.default_access_policy now)
            λ _. Keeps-lift _

deletions-Keep : (docs : List Doc) → All (Keeps IsAssets) (map delete_policy docs)
deletions-Keep [] = tt
deletions-Keep (d ∷ docs) = (delete_policy-Keeps d, deletions-Keep docs)

remove_objects-Keeps : (paths : List String) → Keeps IsAssets (remove_objects paths)
unfolding remove_objects
remove_objects-Keeps [] = Keeps-pure tt
remove_objects-Keeps (p ∷ paths) =
    Keeps-bind _ _ (remove_object-Keeps p) λ _. remove_objects-Keeps paths

pub db_delete-Keeps : (asset : Doc) → Keeps IsAssets (db_delete asset)
unfolding db_delete
db_delete-Keeps asset = search (block_rules, delete_group-Keeps, delete_doc-Keeps) depth 9

delete_asset-Keeps : (a : String) → Keeps IsAssets (delete_asset a)
unfolding delete_asset
delete_asset-Keeps a = Keeps-bind _ _ (db_get-Keeps a) λ asset.
    Keeps-bind _ _ (db_delete-Keeps asset) λ _. Keeps-bind _ _ (query_policies-Keeps _) λ docs.
      Keeps-bind _ _ (Keeps-gather _ (deletions-Keep docs)) λ _.
        Keeps-bind _ _ (Keeps-lift _)
          λ kind. Keeps-bind _ _ (list_objects-Keeps _) λ objects. remove_objects-Keeps objects

-- The requests of the routers for assets, access and permissions, at the second they come.
pub data AssetRequest (P : Type 0) : Type 0 where
  put_asset : User → NewAssetBody P → ℕ → AssetRequest P
  change_asset : String → PostAssetBody P → ℕ → AssetRequest P
  remove_asset : String → AssetRequest P
  read_asset : String → AssetRequest P
  put_policy : String → String → AccessPolicyBody P → ℕ → AssetRequest P
  remove_policy : String → String → AssetRequest P
  read_policy_of : Bool → String → String → AssetRequest P
  read_permissions : User → String → ℕ → AssetRequest P
  read_access_info : User → String → ℕ → AssetRequest P

module _ (c : Base64) (j : Json) (distinct : List String → List String) (date : ℤ → String) where
  -- The state after a request, whether the endpoint returned or raised.
  unfoldable pub handle : AssetRequest j.Parameters → Configuration → Configuration
  handle (put_asset user body now) s = (create_asset c user body now s).1
  handle (change_asset a body now) s = (post_asset c a body now s).1
  handle (remove_asset a) s = (delete_asset a s).1
  handle (read_asset a) s = (get_asset a s).1
  handle (put_policy a g body now) s = (put_access_policy j a g body now s).1
  handle (remove_policy a g) s = (delete_access_policy a g s).1
  handle (read_policy_of inherited a g) s = (get_access_policy j c inherited a g s).1
  handle (read_permissions user a now) s = (get_permissions c j distinct user a now s).1
  handle (read_access_info user a now) s = (access_info c j distinct date user a now s).1

  handle-IsAssets :
      (r : AssetRequest j.Parameters) (s : Configuration) → IsAssets s → IsAssets (handle r s)
  unfolding handle get_asset
  handle-IsAssets (put_asset user body now) = (create_asset-Keeps c user body now).at
  handle-IsAssets (change_asset a body now) = (post_asset-Keeps c a body now).at
  handle-IsAssets (remove_asset a) = (delete_asset-Keeps a).at
  handle-IsAssets (read_asset a) = (get_asset-Keeps c j distinct a).at
  handle-IsAssets (put_policy a g body now) = (put_access_policy-Keeps j a g body now).at
  handle-IsAssets (remove_policy a g) = (delete_access_policy-Keeps a g).at
  handle-IsAssets (read_policy_of inherited a g) = (get_access_policy-Keeps j c inherited a g).at
  handle-IsAssets (read_permissions user a now) = (get_permissions-Keeps c j distinct user a now).at
  handle-IsAssets (read_access_info user a now) =
      (access_info-Keeps c j distinct date user a now).at

  unfoldable pub serve : List (AssetRequest j.Parameters) → Configuration → Configuration
  serve [] s = s
  serve (r ∷ rs) s = serve rs (handle r s)

  -- Whatever requests come, in whatever order, and whether they return or raise: if the tables of
  -- assets and of policies are well-formed before them, they are well-formed after them.
  pub serve-IsAssets :
      (rs : List (AssetRequest j.Parameters)) (s : Configuration)
      → IsAssets s
      → IsAssets (serve rs s)
  unfolding serve
  serve-IsAssets [] s h = h
  serve-IsAssets (r ∷ rs) s h = serve-IsAssets rs (handle r s) (handle-IsAssets r s h)
