-- ===== src/Assets/Handlers.antt =====
-- src/youwol/backends/assets/routers/assets.py: the endpoints on assets.
use py_youwol.Prelude.{
  ℕ, String, Bool, true, false, not, ◌&&◌, ◌||◌, Option, none, some, List, [], ◌∷◌, ◌++◌, map, ◌==◌,
  ◌<>◌, if◌then◌else◌, select,
}
use py_youwol.Prelude.Text.{has, contains, cut, strip_prefix}
use py_youwol.Prelude.Dict.{put, pop, member}
use py_youwol.Prelude.Exec.{
  Result, ok, err, http, unmodelled, Exec, pure, lift, ◌>>=◌, ◌>>◌, gather,
}
use py_youwol.DocDb.Models.{Doc, field_of}
use py_youwol.Groups.{Base64, User, to_group_id, private_group_id}
use py_youwol.Assets.Models.{
  ReadPolicyEnum, forbidden, SharePolicyEnum, share_forbidden, read_value, share_value,
  AccessPolicyBody, NewAssetBody, PostAssetBody, AssetResponse, Configuration,
}
use py_youwol.Assets.Docs.{format_asset}
use py_youwol.Assets.Store.{
  db_get, db_post, db_delete, query_policies, create_policy, delete_policy, is_under,
  get_asset_implementation,
}
use py_youwol.Assets.Access.{doc_access}
use py_youwol.Assets.Permissions.{policies_query}

-- `given or default`
abbrev pub given_or : Option String → String → String
given_or none default = default
given_or (some given) default = if given == "" then default else given

-- `policy.read == FORBIDDEN and policy.share == FORBIDDEN`
abbrev pub is_closed : ReadPolicyEnum → SharePolicyEnum → Bool
is_closed forbidden share_forbidden = true
is_closed read share = false

abbrev pub attribute : String → Option String → Doc
attribute key none = []
attribute key (some value) = (key, value) ∷ []

-- A path is turned into the identifier of its group.
abbrev pub group_attribute : Base64 → Option String → Option String
group_attribute c none = none
group_attribute c (some group) = some (if has b'/' group then to_group_id c group else group)

module _ {P : Type 0} where
  abbrev pub doc_asset : String → String → NewAssetBody P → Doc
  doc_asset asset_id owning_group body =
      ("asset_id", asset_id)
      ∷ ("related_id", body.raw_id)
      ∷ ("group_id", owning_group)
      ∷ ("name", body.name)
      ∷ ("description", body.description)
      ∷ ("kind", body.kind)
      ∷ ("tags", body.tags)
      ∷ ("images", "[]")
      ∷ ("thumbnails", "[]")
      ∷ []

  -- The policy of every group, `*`; the parameters of the body are not written.
  abbrev pub doc_default : String → String → AccessPolicyBody P → ℕ → Doc
  doc_default asset_id related_id policy now =
      doc_access asset_id related_id "*" (read_value policy.read) (share_value policy.share) "{}"
        now

  -- `to_doc_db_id` is the identifier in base64.
  unfoldable pub create_asset :
      Base64 → User → NewAssetBody P → ℕ → Exec Configuration AssetResponse
  unfolding private_group_id
  create_asset c user body now = do
    let policy = body.default_access_policy
    let asset_id = given_or body.asset_id (c.encode body.raw_id)
    let doc = doc_asset asset_id (given_or body.group_id (private_group_id user)) body
    db_post doc
    if is_closed policy.read policy.share
        then pure tt
        else create_policy (doc_default asset_id body.raw_id policy now)
    lift (format_asset doc)

  -- The texts of the body that are given, under the names of the columns.
  abbrev pub new_attributes : Base64 → PostAssetBody P → Doc
  new_attributes c body =
      attribute "name" body.name
      ++ attribute "description" body.description
      ++ attribute "tags" body.tags
      ++ attribute "group_id" (group_attribute c body.group_id)

  abbrev pub policy_change :
      String → String → Option (AccessPolicyBody P) → ℕ → Exec Configuration (Unit {0})
  policy_change asset_id related_id none now = pure tt
  policy_change asset_id related_id (some policy) now =
      create_policy (doc_default asset_id related_id policy now)

-- `{**doc, **attributes}`
abbrev pub merged : Doc → Doc → Doc
merged doc [] = doc
merged doc ((key, value) ∷ attributes) = merged (put key value doc) attributes

-- `asset["related_id"]` is read for a policy only.
abbrev pub related_of : {P : Type 0} → Doc → Option (AccessPolicyBody P) → Result String
related_of asset none = ok ""
related_of asset (some policy) = field_of asset "related_id"

-- The default policy of the body is no column of the document.
unfoldable pub post_asset :
    {P : Type 0} → Base64 → String → PostAssetBody P → ℕ → Exec Configuration AssetResponse
unfolding to_group_id has
post_asset c asset_id body now = do
  asset ← db_get asset_id
  let doc = pop "defaultAccessPolicy" (merged asset (new_attributes c body))
  db_post doc
  related_id ← lift (related_of asset body.default_access_policy)
  policy_change asset_id related_id body.default_access_policy now
  lift (format_asset doc)

-- A name of the path begins with a dot; `glob` passes over it.
abbrev pub is_hidden : String → Bool
is_hidden path = is_under "." path || contains "/." path

-- What `list_objects` keeps of the files under a folder.
abbrev pub is_listed : String → String → Bool
is_listed prefix path = elim (strip_prefix prefix path) [
  | none ↦ false
  | some rest ↦ not (is_hidden rest) && not (contains ".metadata.json" path)
]

-- The characters that `glob` expands.
abbrev pub has_magic : String → Bool
has_magic path = has b'*' path || (has b'?' path || has b'[' path)

-- `LocalFileSystem.list_objects`, recursive: the paths of the files below the root folder, whose own
-- path holds none of this. A prefix that `glob` expands is not modelled.
unfoldable pub list_objects : String → Exec Configuration (List String)
unfolding strip_prefix cut has
list_objects prefix s =
    if has_magic prefix
    then (err unmodelled, s)
    else (ok (select (is_listed prefix) s.file_system), s)

abbrev pub metadata_of : String → String
metadata_of path = path <> ".metadata.json"

-- `LocalFileSystem.remove_object`, for a path that is no folder: the file and its metadata.
unfoldable pub remove_object : String → Exec Configuration (Unit {0})
remove_object path s =
    if member path s.file_system
    then (
      ok tt,
      record s {
        file_system = select (λ p. not (p == path || p == metadata_of path)) s.file_system;
      },
    )
    else (err (http 404), s)

-- The loop over the objects; the first exception ends it.
unfoldable pub remove_objects : List String → Exec Configuration (Unit {0})
unfolding remove_object
remove_objects [] = pure tt
remove_objects (path ∷ paths) = do remove_object path; remove_objects paths

unfoldable pub delete_asset : String → Exec Configuration (Unit {0})
delete_asset asset_id = do
  asset ← db_get asset_id
  db_delete asset
  docs ← query_policies (policies_query asset_id)
  gather (map delete_policy docs)
  kind ← lift (field_of asset "kind")
  objects ← list_objects (kind <> ("/" <> (asset_id <> "/")))
  remove_objects objects

unfoldable pub get_asset : String → Exec Configuration AssetResponse
unfolding get_asset_implementation
get_asset asset_id = get_asset_implementation asset_id
