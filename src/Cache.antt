-- ===== src/Cache.antt =====
-- src/youwol/utils/clients/cache: `CacheClient` of cache.py over `LocalCacheClient` of
-- local_cache.py. The time is an argument, in seconds. A cached text is the value it was dumped
-- from, which `json.loads` gives back; it is never empty.
pub mod Laws
use py_youwol.Prelude.{
  ℕ, String, ◌<>◌, ◌+◌, Bool, none, some, Option, List, [], ◌∷◌, ltb, eqb, if◌then◌else◌,
}
use py_youwol.Prelude.Int.{ℤ, sub_ℕ}
use py_youwol.Prelude.Exec.{Result, ok, err, key_error}
use py_youwol.Prelude.Dict.{Dict, get as find, put, pop}

-- The members of the JSON objects that are cached; a time is a number of microseconds.
pub data Scalar : Type 0 where
  text : String → Scalar
  time : ℕ → Scalar
  number : ℕ → Scalar
  flag : Bool → Scalar

-- The JSON values that are cached.
pub data Json : Type 0 where
  string : String → Json
  object : Dict Scalar → Json

-- `expire`: `None`, a `TTL` or an `AT`
pub data Expire : Type 0 where
  never : Expire
  ttl at : ℕ → Expire

pub record CacheEntry : Type 0 where
  pub value : Json
  pub expire_at : ℕ

pub record LocalCacheClient : Type 0 where
  pub prefix : String
  pub cache : Dict CacheEntry

-- `sys.maxsize`
abbrev pub max_size : ℕ
max_size = 9223372036854775807

unfoldable pub name_to_key : String → String → String
name_to_key prefix name = prefix <> ("_" <> name)

-- `CacheClient.get`
unfoldable pub get : ℕ → String → LocalCacheClient → Option Json
get now name self = elim (find (name_to_key self.prefix name) self.cache) [
  | none ↦ none
  | some entry ↦ if ltb now entry.expire_at then some entry.value else none
]

abbrev pub deadline : ℕ → Expire → ℕ
deadline now never = max_size
deadline now (ttl n) = now + n
deadline now (at n) = n

-- `CacheClient.set`
unfoldable pub set : ℕ → String → Json → Expire → LocalCacheClient → LocalCacheClient
set now name content expire self =
    let entry : CacheEntry = record { value = content; expire_at = deadline now expire } in
    record self { cache = put (name_to_key self.prefix name) entry self.cache }

-- `CacheClient.delete`
unfoldable pub delete : String → LocalCacheClient → LocalCacheClient
delete name self = record self { cache = pop (name_to_key self.prefix name) self.cache }

abbrev pub expired_keys : ℕ → Dict CacheEntry → List String
expired_keys now [] = []
expired_keys now ((k, entry) ∷ d) =
    let rest = expired_keys now d in if ltb entry.expire_at now then k ∷ rest else rest

abbrev pub pop_all : List String → Dict CacheEntry → Dict CacheEntry
pop_all [] d = d
pop_all (k ∷ ks) d = pop_all ks (pop k d)

unfoldable pub clear_expired : ℕ → LocalCacheClient → LocalCacheClient
clear_expired now self = record self { cache = pop_all (expired_keys now self.cache) self.cache }

-- `CacheClient.get_ttl`: the seconds that are left, none for an entry that never expires. Unlike
-- `get`, it raises where there is no entry, and counts an expired one below zero.
unfoldable pub get_ttl : ℕ → String → LocalCacheClient → Result (Option ℤ)
get_ttl now name self = elim (find (name_to_key self.prefix name) self.cache) [
  | none ↦ err key_error
  | some entry ↦
      if eqb entry.expire_at max_size then ok none else ok (some (sub_ℕ entry.expire_at now))
]

-- `factory_local_cache`, less the thread that cleans.
unfoldable pub factory_local_cache : String → LocalCacheClient
factory_local_cache prefix = record { prefix = prefix; cache = [] }
