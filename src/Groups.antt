-- ===== src/Groups.antt =====
-- The groups of users: src/youwol/utils/clients/utils.py, and the functions on the groups of a user
-- of src/youwol/utils/utils.py. A group is a path such as `/youwol-users/admins`; its identifier is
-- the path in base64.
pub mod Laws
pub mod Ancestors
use py_youwol.Prelude.{
  ℕ, zero, suc, String, Bool, true, false, not, ◌||◌, Option, none, some, List, [], ◌∷◌, ◌++◌, map,
  ltb, ◌==◌, ◌<>◌, if◌then◌else◌, length, take, select, any, ◌≡◌, ◌-◌,
}
use py_youwol.Prelude.Dict.{member}
use py_youwol.Prelude.Text.{split, contains, size, slice_to, join}
use py_youwol.Prelude.Exec.{Result, ok, err, http, then_ok}

-- `base64.urlsafe_b64encode` of the bytes of a text, and the text that `urlsafe_b64decode` gives;
-- it raises a `ValueError` where there is none.
pub record Base64 : Type 0 where
  pub encode : String → String
  pub decode : String → Result String

pub record IsBase64 (c : Base64) : Type 0 where
  pub decode-encode : (text : String) → c.decode (c.encode text) ≡ ok text

-- The comparison of two scopes.
abbrev pub is_child_scope : String → String → Bool
is_child_scope child_scope parent_scope =
    if ltb (size child_scope) (size parent_scope)
    then false
    else slice_to (size parent_scope) child_scope == parent_scope

-- `[scope for scope in scope.split("/") if scope]`
abbrev pub items_of_scope : String → List String
items_of_scope scope = let (w, ws) = split b'/' scope in select (λ item. not (item == "")) (w ∷ ws)

-- `range(i, i + n)`
abbrev pub range : ℕ → ℕ → List ℕ
range i zero = []
range i (suc n) = i ∷ range (suc i) n

abbrev pub paths_of_items : List String → List String
paths_of_items items = map (λ i. join "/" ("" ∷ take (suc i) items)) (range 0 (length items))

-- `xs[0:-1]`
abbrev pub all_but_last : List String → List String
all_but_last [] = []
all_but_last (x ∷ []) = []
all_but_last (x ∷ y ∷ xs) = x ∷ all_but_last (y ∷ xs)

-- `xs.reverse()`
abbrev pub reversed : List String → List String
reversed [] = []
reversed (x ∷ xs) = reversed xs ++ (x ∷ [])

module _ (c : Base64) where
  unfoldable pub to_group_id : String → String
  to_group_id group_path = if group_path == "private" then "private" else c.encode group_path

  unfoldable pub to_group_scope : String → Result String
  to_group_scope group_id = if contains "private" group_id then ok "private" else c.decode group_id

  unfoldable pub to_group_owner : String → Result (Option String)
  to_group_owner group_id =
      if contains "private" group_id
      then ok none
      else then_ok (c.decode group_id) (λ scope. ok (some scope))

  unfoldable pub is_child_group : String → String → Result Bool
  unfolding size slice_to
  is_child_group child_group_id parent_group_id =
      if child_group_id == parent_group_id
      then ok true
      else then_ok (to_group_scope child_group_id) (λ child_scope.
        then_ok (to_group_scope parent_group_id) (λ parent_scope. ok (
          if child_scope == "private" || parent_scope == "private"
          then child_group_id == parent_group_id
          else is_child_scope child_scope parent_scope)))

  unfoldable pub ancestors_group_id : String → Result (List String)
  unfolding split join
  ancestors_group_id group_id = then_ok (to_group_scope group_id) (λ scope. ok (
      if scope == "private"
      then []
      else reversed (map to_group_id (all_but_last (paths_of_items (items_of_scope scope))))))

pub record User : Type 0 where
  pub sub : String
  -- `None` stands for no group.
  pub memberof : List (Option String)

abbrev pub present : List (Option String) → List String
present [] = []
present (none ∷ groups) = present groups
present (some group ∷ groups) = group ∷ present groups

unfoldable pub private_group_id : User → String
private_group_id user = "private_" <> user.sub

unfoldable pub get_leaf_group_ids : Base64 → User → List String
unfolding private_group_id to_group_id
get_leaf_group_ids c user = private_group_id user ∷ map (to_group_id c) (present user.memberof)

-- `get_combinations` of a path, from its parts: its proper prefixes.
abbrev pub get_combinations : List String → List String
get_combinations elements = map (λ i. join "/" (take i elements)) (range 1 (length elements - 1))

abbrev pub flatten : List (List String) → List String
flatten [] = []
flatten (xs ∷ xss) = xs ++ flatten xss

abbrev pub parts_of : String → List String
parts_of group = let (w, ws) = split b'/' group in w ∷ ws

-- The groups that are not empty, with all the groups above them. `distinct` is `list(set(...))`,
-- where the `None` that the source adds is left out, as its callers do.
unfoldable pub get_all_individual_groups :
    (List String → List String) → List (Option String) → List String
unfolding split join
get_all_individual_groups distinct groups = distinct (
    present groups
    ++ select (λ e. not (e == ""))
        (flatten (
          map (λ group. get_combinations (parts_of group))
            (select (λ group. not (group == "")) (present groups)))))

unfoldable pub get_user_group_ids : Base64 → (List String → List String) → User → List String
unfolding private_group_id to_group_id get_all_individual_groups
get_user_group_ids c distinct user =
    private_group_id user ∷ map (to_group_id c) (get_all_individual_groups distinct user.memberof)

unfoldable pub is_authorized_write : Base64 → (List String → List String) → User → String → Bool
unfolding get_user_group_ids
is_authorized_write c distinct user group_id = member group_id (get_user_group_ids c distinct user)

unfoldable pub ensure_group_permission :
    Base64 → (List String → List String) → User → String → Result (Unit {0})
unfolding get_user_group_ids
ensure_group_permission c distinct user group_id =
    if member group_id (get_user_group_ids c distinct user) then ok tt else err (http 401)

unfoldable pub check_permission_or_raise : Option String → List String → Result (Unit {0})
check_permission_or_raise none allowed_groups = ok tt
check_permission_or_raise (some target_group) allowed_groups =
    if target_group == ""
    then ok tt
    else if any (contains target_group) allowed_groups
    then ok tt
    else err (http 401)
