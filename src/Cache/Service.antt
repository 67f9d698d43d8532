-- ===== src/Cache/Service.antt =====
-- packages/cache/src/cache.service.ts: `CacheService` over the in-memory store. The test that the
-- regular expression of a glob makes of a key is an argument of `clear`.
pub mod Invalidation
mod Tests
use Prim.Native.String.{◌++◌}
use nexusts.Prelude.{
  ℕ, Bool, List, [], ◌∷◌, Option, none, some, String, str_eq, if◌then◌else◌, get_or_else,
}
use nexusts.Cache.Memory
use nexusts.Cache.Memory.{MemoryStore}

pub record CacheService (V : Type 0) : Type 0 where
  pub store : MemoryStore V
  pub default_ttl : ℕ
  pub prefix : String

-- The third argument of `set`: left out, a number, or an object.
pub data SetOptions : Type 0 where
  by_default : SetOptions
  for_seconds : ℕ → SetOptions
  with_options : Option ℕ → Option (List String) → SetOptions

abbrev pub ttl_of : ℕ → SetOptions → ℕ
ttl_of default_ttl by_default = default_ttl
ttl_of default_ttl (for_seconds ttl) = ttl
ttl_of default_ttl (with_options ttl tags) = get_or_else ttl default_ttl

abbrev pub tags_of : SetOptions → Option (List String)
tags_of by_default = none
tags_of (for_seconds ttl) = none
tags_of (with_options ttl tags) = tags

abbrev pub prefixed : String → String → String
prefixed prefix k = prefix ++ (":" ++ k)

abbrev pub new_service : {V : Type 0} → ℕ → ℕ → String → CacheService V
new_service max default_ttl prefix = record {
  store = Memory.constructed max;
  default_ttl = default_ttl;
  prefix = prefix;
}

module _ {V : Type 0} where
  abbrev pub key : String → CacheService V → String
  key k s = prefixed s.prefix k

  abbrev pub prefixed_tag : String → CacheService V → String
  prefixed_tag tag s = prefixed s.prefix tag

  unfoldable pub get : ℕ → String → CacheService V → CacheService V × Option V
  get now k s = let (store, v) = Memory.get now (key k s) s.store in (record s { store = store }, v)

  unfoldable pub set : ℕ → String → V → SetOptions → CacheService V → CacheService V
  set now k value opts s = record s {
    store = Memory.set now (key k s) value (ttl_of s.default_ttl opts) (tags_of opts) s.store;
  }

  unfoldable pub delete : String → CacheService V → CacheService V × Bool
  delete k s =
      let (store, deleted) = Memory.delete (key k s) s.store in
      (record s { store = store }, deleted)

  -- The pattern that the store gets: the empty pattern counts as none.
  abbrev pub store_pattern :
      (String → String → Bool) → Option String → CacheService V → Option (String → Bool)
  store_pattern glob none s = none
  store_pattern glob (some pattern) s =
      if str_eq pattern "" then none else some (glob (key pattern s))

  unfoldable pub clear :
      (String → String → Bool) → Option String → CacheService V → CacheService V × ℕ
  clear glob pattern s =
      let (store, n) = Memory.clear (store_pattern glob pattern s) s.store in
      (record s { store = store }, n)

  unfoldable pub wrap : ℕ → ℕ → String → V → Option ℕ → CacheService V → CacheService V × V
  wrap now later k result ttl s =
      let (store, v) =
        Memory.wrap now later (key k s) result (get_or_else ttl s.default_ttl) s.store in
      (record s { store = store }, v)

  unfoldable pub invalidate_by_tag : String → CacheService V → CacheService V × ℕ
  invalidate_by_tag tag s =
      let (store, n) = Memory.invalidate_by_tag (prefixed_tag tag s) s.store in
      (record s { store = store }, n)

  -- The in-memory store has no `gc`.
  abbrev pub gc : CacheService V → CacheService V × ℕ
  gc s = (s, 0)

-- A call of the service, with the times at which it is made.
pub data Call (V : Type 0) : Type 0 where
  getting : ℕ → String → Call V
  setting : ℕ → String → V → SetOptions → Call V
  deleting : String → Call V
  clearing : Option String → Call V
  wrapping : ℕ → ℕ → String → V → Option ℕ → Call V
  invalidating : String → Call V
  collecting : Call V

module _ {V : Type 0} (glob : String → String → Bool) where
  abbrev pub perform : Call V → CacheService V → CacheService V
  perform (getting now k) s = (get now k s).0
  perform (setting now k value opts) s = set now k value opts s
  perform (deleting k) s = (delete k s).0
  perform (clearing pattern) s = (clear glob pattern s).0
  perform (wrapping now later k result ttl) s = (wrap now later k result ttl s).0
  perform (invalidating tag) s = (invalidate_by_tag tag s).0
  perform collecting s = (gc s).0

  unfoldable pub run : List (Call V) → CacheService V → CacheService V
  run [] s = s
  run (c ∷ cs) s = run cs (perform c s)
