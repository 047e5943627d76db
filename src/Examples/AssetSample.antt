-- ===== src/Examples/AssetSample.antt =====
-- One asset of the administrators, with a policy for the readers.
use py_youwol.Prelude.{
  String, false, ◌≡◌, refl, inl, inr, Bool-cases, none, some, List, [], ◌∷◌, ◌==◌, if◌then◌else◌,
  All,
}
use mathlib.Core.Path.{subst}
use mathlib.Core.Option.{some-injective}
use py_youwol.Prelude.Int.{pos, ◌+ℤ◌}
use py_youwol.Prelude.Text.{has, cut, split, join, size, slice_to, strip_prefix, int}
use py_youwol.Prelude.Exec.{ok, err, key_error}
use py_youwol.DocDb.Models.{Doc}
use py_youwol.Groups.{
  Base64, IsBase64, User, to_group_id, to_group_scope, is_child_group, ancestors_group_id,
  get_leaf_group_ids, private_group_id,
}
use py_youwol.Groups.Laws.{IsScope}
use py_youwol.Groups.Ancestors.{IsName, path_of}
use py_youwol.Assets.Models.{
  authorized, expiration_date, share_forbidden, Json, IsJson, AccessPolicyBody, NewAssetBody,
  Configuration, assets_table, access_policy, number_of,
}
use py_youwol.Assets.Permissions.{expiration_of, with_ancestors}
use py_youwol.Assets.Invariant.Serve.{
  AssetRequest, put_asset, put_policy, read_access_info, remove_asset, remove_policy,
}
use py_youwol.Assets.Laws.Tables.{IsAssets, policy_at}
use py_youwol.Assets.Laws.Members.{IsDistinct}
use py_youwol.Assets.Laws.Permission.{IsRule}
use py_youwol.Assets.Laws.Permissions.{HasScope}

-- Groups whose identifier is their path, in place of its base64.
abbrev pub plain : Base64
plain = record { encode = λ t. t; decode = λ t. ok t }

pub plain-IsBase64 : IsBase64 plain
plain-IsBase64 = record { decode-encode = λ t. refl }

-- Parameters that are the text of the period alone.
abbrev pub period_json : Json
period_json = record {
  Parameters = String;
  dumps = λ p. p;
  loads = λ t. ok t;
  period = λ p. if p == "{}" then err key_error else number_of p;
  nothing = "{}";
}

pub period_json-IsJson : IsJson period_json
period_json-IsJson = record { loads-dumps = λ p. refl; loads_nothing = refl; period_nothing = refl }

abbrev pub asset_doc : Doc
asset_doc =
    ("asset_id", "a1")
    ∷ ("related_id", "r1")
    ∷ ("group_id", "/youwol-users/admins")
    ∷ ("name", "story")
    ∷ ("description", "")
    ∷ ("kind", "story")
    ∷ ("tags", "[]")
    ∷ ("images", "[]")
    ∷ ("thumbnails", "[]")
    ∷ ("owner", "/youwol-users")
    ∷ []

-- The readers may read from second 100 on for 50 seconds.
abbrev pub policy_doc : Doc
policy_doc =
    ("asset_id", "a1")
    ∷ ("related_id", "r1")
    ∷ ("consumer_group_id", "/youwol-users/readers")
    ∷ ("read", "expiration-date")
    ∷ ("share", "forbidden")
    ∷ ("parameters", "50")
    ∷ ("timestamp", "100")
    ∷ ("owner", "/youwol-users")
    ∷ []

abbrev pub state : Configuration
state = record {
  doc_db_asset = record {
    table_body = assets_table;
    secondary_indexes = [];
    documents = asset_doc ∷ [];
    persisted = [];
  };
  doc_db_access_policy = record {
    table_body = access_policy;
    secondary_indexes = [];
    documents = policy_doc ∷ [];
    persisted = [];
  };
  file_system = "story/a1/files/index.html" ∷ "story/a1/files/index.html.metadata.json" ∷ [];
  storage = [];
}

pub state-IsAssets : IsAssets state
state-IsAssets = record {
  assets = record {
    simple = record { partition = refl; clustering = refl; order = refl };
    keyed = (("a1", refl, tt), tt);
    complete = (
      (
        (_, refl),
        (
          (_, refl),
          (
            (_, refl),
            (
              (_, refl),
              ((_, refl), ((_, refl), ((_, refl), ((_, refl), ((_, refl), ((_, refl), tt)))))),
            ),
          ),
        ),
      ),
      tt,
    );
  };
  schema = refl;
  policies = record {
    pairs = record { partition = refl; clustering = refl; order = refl };
    paired = (
      (
        record {
          first_key = "a1";
          second_key = "/youwol-users/readers";
          first_get = refl;
          second_get = refl;
          owner_get = refl;
        },
        tt,
      ),
      tt,
    );
  };
  shaped = (
    ((_, refl), ((_, refl), ((_, refl), ((_, refl), ((_, refl), ((_, refl), ((_, refl), tt))))))),
    tt,
  );
}

pub fifty : expiration_of period_json policy_doc ≡ ok (pos 150)
unfolding number_of strip_prefix int ◌+ℤ◌
fifty = refl

pub policy_doc-IsRule : IsRule period_json policy_doc
policy_doc-IsRule = record {
  read = "expiration-date";
  share = "forbidden";
  read_get = refl;
  share_get = refl;
  deadline = λ u. (pos 150, fifty);
}

pub rules : (g : String) (d : Doc) → policy_at "a1" g state ≡ some d → IsRule period_json d
rules g d e = elim (Bool-cases ("/youwol-users/readers" == g)) [
  | inl t ↦ subst (IsRule period_json) (some-injective policy_doc d (rw t at e)) policy_doc-IsRule
  | inr n ↦ cc (rw n at e)
]

pub users-IsScope : IsScope plain "/youwol-users"
unfolding cut
users-IsScope = record { public = refl; unmarked = refl }

pub admins-IsScope : IsScope plain "/youwol-users/admins"
unfolding cut
admins-IsScope = record { public = refl; unmarked = refl }

pub users-IsName : IsName "youwol-users"
unfolding has
users-IsName = record { no_slash = refl; not_empty = refl }

pub admins-IsName : IsName "admins"
unfolding has
admins-IsName = record { no_slash = refl; not_empty = refl }

pub admins_root-IsScope : IsScope plain (path_of ("admins" ∷ []))
unfolding cut join
admins_root-IsScope = record { public = refl; unmarked = refl }

pub users_path-IsScope : IsScope plain (path_of ("youwol-users" ∷ []))
unfolding cut join
users_path-IsScope = record { public = refl; unmarked = refl }

pub admins_path-IsScope : IsScope plain (path_of ("youwol-users" ∷ "admins" ∷ []))
unfolding cut join
admins_path-IsScope = record { public = refl; unmarked = refl }

abbrev pub reader : User
reader = record { sub = "u"; memberof = some "/youwol-users/readers" ∷ [] }

abbrev pub reader_groups : List String
reader_groups = "private_u" ∷ "/youwol-users/readers" ∷ "/youwol-users" ∷ []

pub reader_groups_found : with_ancestors plain (get_leaf_group_ids plain reader) ≡ ok reader_groups
unfolding with_ancestors get_leaf_group_ids private_group_id to_group_id ancestors_group_id
    to_group_scope split join cut
reader_groups_found = refl

abbrev pub same : List String → List String
same xs = xs

pub same-IsDistinct : IsDistinct same
same-IsDistinct = record { members = λ x xs. refl }

pub scope_of_admins : HasScope plain "/youwol-users/admins"
unfolding to_group_scope cut
scope_of_admins = (_, refl)

pub scopes_of_reader : All (HasScope plain) reader_groups
unfolding to_group_scope cut
scopes_of_reader = ((_, refl), ((_, refl), ((_, refl), tt)))

abbrev pub opening : AccessPolicyBody String
opening = record { read = authorized; share = share_forbidden; parameters = "7" }

pub readers_apart : is_child_group plain "/youwol-users/readers" "/youwol-users/admins" ≡ ok false
unfolding is_child_group to_group_scope cut size slice_to
readers_apart = refl

pub readers_above : ancestors_group_id plain "/youwol-users/readers" ≡ ok ("/youwol-users" ∷ [])
unfolding ancestors_group_id to_group_scope to_group_id cut split join
readers_above = refl

abbrev pub new_body : NewAssetBody String
new_body = record {
  asset_id = none;
  raw_id = "r2";
  kind = "flux";
  group_id = none;
  name = "project";
  description = "";
  tags = "[]";
  default_access_policy = record {
    read = expiration_date;
    share = share_forbidden;
    parameters = "9";
  };
}

abbrev pub requests : List (AssetRequest String)
requests =
    put_asset reader new_body 300
    ∷ put_policy "r2" "/youwol-users" opening 301
    ∷ read_access_info reader "r2" 302
    ∷ remove_asset "r2"
    ∷ remove_policy "a1" "/youwol-users/readers"
    ∷ []
