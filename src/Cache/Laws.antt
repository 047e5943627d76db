-- ===== src/Cache/Laws.antt =====
-- What a cache promises: an entry is there from when it is set to when it expires or is deleted.
use text.Mathlib.TextLemmas.{append_cancel_left}
use py_youwol.Prelude.{
  ℕ, String, ◌<>◌, ◌≤◌, ◌≡◌, refl, true, false, none, some, List, [], ◌∷◌, ltb, if◌then◌else◌, ◌==◌,
  eq_iff, arith,
}
use py_youwol.Prelude.Dict.{Dict, get as find, pop, get-put, get-pop, member, keys, IsUnique}
use py_youwol.Cache.{
  Json, Expire, CacheEntry, LocalCacheClient, name_to_key, get, deadline, set, delete, expired_keys,
  pop_all, clear_expired,
}

pub same_name : (prefix a b : String) → (name_to_key prefix a == name_to_key prefix b) ≡ (a == b)
unfolding name_to_key
same_name prefix a b = ground (
  arith,
  eq_iff (name_to_key prefix a) (name_to_key prefix b),
  eq_iff a b,
  append_cancel_left prefix ("_" <> a) ("_" <> b),
  append_cancel_left "_" a b,
)

-- After an entry is set, its name reads its content until the deadline, and nothing from then on;
-- every other name reads as before.
pub get-set :
    (now later : ℕ) (name other : String) (content : Json) (expire : Expire)
    (self : LocalCacheClient)
    → get later other (set now name content expire self) ≡ (
        if name == other
        then (if ltb later (deadline now expire) then some content else none)
        else get later other self)
unfolding get set
get-set now later name other content expire self = ground (
  arith,
  same_name self.prefix name other,
  get-put (name_to_key self.prefix other) (name_to_key self.prefix name)
      (record { value = content; expire_at = deadline now expire }) self.cache,
)

-- After an entry is deleted, its name reads nothing, and every other name as before.
pub get-delete :
    (later : ℕ) (name other : String) (self : LocalCacheClient)
    → get later other (delete name self) ≡ (if name == other then none else get later other self)
unfolding get delete
get-delete later name other self = ground (
  arith,
  same_name self.prefix name other,
  get-pop (name_to_key self.prefix other) (name_to_key self.prefix name) self.cache,
)

get-pop_all :
    (j : String) (ks : List String) (d : Dict CacheEntry)
    → find j (pop_all ks d) ≡ (if member j ks then none else find j d)
get-pop_all j [] d = refl
get-pop_all j (k ∷ ks) d = ground (arith, get-pop_all j ks (pop k d), get-pop j k d)

member-expired_keys :
    (now : ℕ) (j : String) (d : Dict CacheEntry)
    → member j (expired_keys now d) ≡ true
    → member j (keys d) ≡ true
member-expired_keys now j [] h = h
member-expired_keys now j ((k, entry) ∷ d) h = ground (arith, member-expired_keys now j d)

expired_entry :
    (now : ℕ) (j : String) (d : Dict CacheEntry)
    → IsUnique d
    → member j (expired_keys now d)
      ≡ elim (find j d) [ none ↦ false | some entry ↦ ltb entry.expire_at now ]
expired_entry now j [] u = refl
expired_entry now j ((k, entry) ∷ d) u =
    ground (arith, eq_iff k j, expired_entry now j d u.1, member-expired_keys now j d, u.0)

-- Removing the expired entries changes no read from then on, in a cache where no key occurs twice.
pub get-clear_expired :
    (now later : ℕ) (name : String) (self : LocalCacheClient)
    → IsUnique self.cache
    → now ≤ later
    → get later name (clear_expired now self) ≡ get later name self
unfolding get clear_expired
get-clear_expired now later name self u after =
    let key = name_to_key self.prefix name in
    ground (
      arith,
      expired_entry now key self.cache u,
      get-pop_all key (expired_keys now self.cache) self.cache,
    )
