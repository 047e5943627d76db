-- ===== src/Assets/Laws/Columns.antt =====
-- The document that `post_asset` of assets.py writes, column by column.
use py_youwol.Prelude.Text.{has}
use py_youwol.Prelude.{
  String, inl, inr, Bool-cases, eq_iff, false, ◌≡◌, refl, sym, ap, ◌∙◌, Option, none, some, [], ◌∷◌,
  ◌++◌, arith, ◌==◌, if◌then◌else◌,
}
use mathlib.Core.Path.{subst}
use py_youwol.Prelude.Dict.{get, put, pop, get-put, get-pop}
use py_youwol.Prelude.Exec.{ok, bind_ok, ok-injective}
use py_youwol.DocDb.Models.{Doc, field_of}
use py_youwol.Groups.{Base64, to_group_id}
use py_youwol.Assets.Models.{PostAssetBody, AssetResponse}
use py_youwol.Assets.Docs.{format_asset}
use py_youwol.Assets.Store.{public_owner}
use py_youwol.Assets.Handlers.{attribute, group_attribute, new_attributes, merged}
use py_youwol.Assets.Invariant.{IsAssetDoc}

-- `given`, or what was there.
abbrev pub updated : Option String → String → String
updated none old = old
updated (some given) old = given

merged-append : (d xs ys : Doc) → merged d (xs ++ ys) ≡ merged (merged d xs) ys
merged-append d [] ys = refl
merged-append d ((k, v) ∷ xs) ys = merged-append (put k v d) xs ys

-- A column after one attribute was merged.
get-merged :
    (column key : String) (o : Option String) (d : Doc) (x : String)
    → get column d ≡ some x
    → get column (merged d (attribute key o)) ≡ some (if key == column then updated o x else x)
get-merged column key none d x e = e ∙ ground arith
get-merged column key (some v) d x e = get-put column key v d ∙ ground (arith, e)

-- What is shown of a document, column by column.
pub record IsShown (d : Doc) (r : AssetResponse) : Type 0 where
  pub asset_id : get "asset_id" d ≡ some r.asset_id
  pub kind : get "kind" d ≡ some r.kind
  pub raw_id : get "related_id" d ≡ some r.raw_id
  pub name : get "name" d ≡ some r.name
  pub images : get "images" d ≡ some r.images
  pub thumbnails : get "thumbnails" d ≡ some r.thumbnails
  pub tags : get "tags" d ≡ some r.tags
  pub description : get "description" d ≡ some r.description
  pub group_id : get "group_id" d ≡ some r.group_id

pub format_asset-shown : (d : Doc) (r : AssetResponse) → IsShown d r → format_asset d ≡ ok r
unfolding format_asset bind_ok
format_asset-shown d r h =
    rw
      (
        field_of, h.asset_id, h.kind, h.raw_id, h.name, h.images, h.thumbnails, h.tags,
        h.description, h.group_id,
      )
      refl

-- A complete document shows something.
IsShown-complete : (d : Doc) → IsAssetDoc d → (r : AssetResponse) × IsShown d r
IsShown-complete d (c1, (c2, (c3, (c4, (c5, (c6, (c7, (c8, (c9, u))))))))) = (
  record {
    asset_id = c1.0;
    kind = c4.0;
    raw_id = c2.0;
    name = c5.0;
    images = c6.0;
    thumbnails = c7.0;
    tags = c8.0;
    description = c9.0;
    group_id = c3.0;
  },
  record {
    asset_id = c1.1;
    kind = c4.1;
    raw_id = c2.1;
    name = c5.1;
    images = c6.1;
    thumbnails = c7.1;
    tags = c8.1;
    description = c9.1;
    group_id = c3.1;
  },
)

pub IsShown-format_asset :
    (d : Doc) (r : AssetResponse) → IsAssetDoc d → format_asset d ≡ ok r → IsShown d r
IsShown-format_asset d r complete e =
    let (q, h) = IsShown-complete d complete in
    subst (IsShown d) (ok-injective (sym (format_asset-shown d q h) ∙ e)) h

-- The group of an asset after an update: the one that was there, the identifier of the path that is
-- given, or the identifier that is given.
abbrev pub group_after : Base64 → Option String → String → String
group_after c none old = old
group_after c (some group) old = if has b'/' group then c.encode group else group

group_after-eq :
    (c : Base64) (o : Option String) (old : String)
    → updated (group_attribute c o) old ≡ group_after c o old
unfolding to_group_id has
group_after-eq c none old = refl
group_after-eq c (some group) old = elim (Bool-cases (group == "private")) [
  | inl t ↦ rw ((eq_iff group "private").0 t) refl
  | inr n ↦ rw n refl
]

module _ {P : Type 0} (c : Base64) (body : PostAssetBody P) where
  -- The document that is written, and what it shows.
  abbrev pub updated_doc : Doc → Doc
  updated_doc asset = pop "defaultAccessPolicy" (merged asset (new_attributes c body))

  abbrev pub updated_asset : AssetResponse → AssetResponse
  updated_asset old = record old {
    name = updated body.name old.name;
    description = updated body.description old.description;
    tags = updated body.tags old.tags;
    group_id = group_after c body.group_id old.group_id;
  }

  attributes-eq :
      (asset : Doc)
      → merged asset (new_attributes c body)
        ≡ merged
            (merged
              (merged
                (merged asset (attribute "name" body.name))
                (attribute "description" body.description))
              (attribute "tags" body.tags))
            (attribute "group_id" (group_attribute c body.group_id))
  attributes-eq asset =
      let a = attribute "name" body.name in
      let b = attribute "description" body.description in
      let t = attribute "tags" body.tags in
      let g = attribute "group_id" (group_attribute c body.group_id) in
      rw
        (
          merged-append asset ((a ++ b) ++ t) g,
          merged-append asset (a ++ b) t,
          merged-append asset a b,
        )
        refl

  -- The value of a column of the written document.
  abbrev column_value : String → String → String
  column_value column x =
      let x1 = if "name" == column then updated body.name x else x in
      let x2 = if "description" == column then updated body.description x1 else x1 in
      let x3 = if "tags" == column then updated body.tags x2 else x2 in
      if "group_id" == column then updated (group_attribute c body.group_id) x3 else x3

  get-updated_doc :
      (asset : Doc) (column x : String)
      → ("defaultAccessPolicy" == column) ≡ false
      → ("owner" == column) ≡ false
      → get column asset ≡ some x
      → (get column (put "owner" public_owner (updated_doc asset)) ≡ some (column_value column x))
        × (get column (updated_doc asset) ≡ some (column_value column x))
  get-updated_doc asset column x n o e =
      let e1 = get-merged column "name" body.name asset x e in
      let e2 = get-merged column "description" body.description _ _ e1 in
      let e3 = get-merged column "tags" body.tags _ _ e2 in
      let e4 = get-merged column "group_id" (group_attribute c body.group_id) _ _ e3 in
      let there : get column (updated_doc asset) ≡ some (column_value column x) =
        get-pop column "defaultAccessPolicy" (merged asset (new_attributes c body))
        ∙ rw (n, attributes-eq asset) e4 in
      (get-put column "owner" public_owner (updated_doc asset) ∙ rw o there, there)

  module _ (asset : Doc) (old : AssetResponse) (h : IsShown asset old) where
    pub updated_doc-IsShown :
        IsShown (put "owner" public_owner (updated_doc asset)) (updated_asset old)
        × IsShown (updated_doc asset) (updated_asset old)
    updated_doc-IsShown = (
      record {
        asset_id = (get-updated_doc asset "asset_id" old.asset_id refl refl h.asset_id).0;
        kind = (get-updated_doc asset "kind" old.kind refl refl h.kind).0;
        raw_id = (get-updated_doc asset "related_id" old.raw_id refl refl h.raw_id).0;
        name = (get-updated_doc asset "name" old.name refl refl h.name).0;
        images = (get-updated_doc asset "images" old.images refl refl h.images).0;
        thumbnails = (get-updated_doc asset "thumbnails" old.thumbnails refl refl h.thumbnails).0;
        tags = (get-updated_doc asset "tags" old.tags refl refl h.tags).0;
        description =
            (get-updated_doc asset "description" old.description refl refl h.description).0;
        group_id =
            (get-updated_doc asset "group_id" old.group_id refl refl h.group_id).0
            ∙ ap some (group_after-eq c body.group_id old.group_id);
      },
      record {
        asset_id = (get-updated_doc asset "asset_id" old.asset_id refl refl h.asset_id).1;
        kind = (get-updated_doc asset "kind" old.kind refl refl h.kind).1;
        raw_id = (get-updated_doc asset "related_id" old.raw_id refl refl h.raw_id).1;
        name = (get-updated_doc asset "name" old.name refl refl h.name).1;
        images = (get-updated_doc asset "images" old.images refl refl h.images).1;
        thumbnails = (get-updated_doc asset "thumbnails" old.thumbnails refl refl h.thumbnails).1;
        tags = (get-updated_doc asset "tags" old.tags refl refl h.tags).1;
        description =
            (get-updated_doc asset "description" old.description refl refl h.description).1;
        group_id =
            (get-updated_doc asset "group_id" old.group_id refl refl h.group_id).1
            ∙ ap some (group_after-eq c body.group_id old.group_id);
      },
    )
