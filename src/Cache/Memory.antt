-- ===== src/Cache/Memory.antt =====
-- packages/cache/src/stores/memory.ts: `MemoryStore`. The clock is an argument; a glob pattern is
-- the test that its regular expression makes of a key. The sweep timer is left out: `sweep_expired`
-- may run at any time. `wrap` is `get`, and `set` behind the `await` of the function.
pub mod Reads
pub mod Invalidation
pub mod Size
pub mod Sweep
pub mod Tags
pub mod Unused
pub mod Writes
mod Tests
use nexusts.Prelude.{
  ℕ, zero, suc, ◌+◌, ◌*◌, Bool, true, false, not, ◌&&◌, List, [], ◌∷◌, Option, none, some, String,
  leb, ltb, ◌==◌, if◌then◌else◌, length, filter, get_or_else,
}
use nexusts.Prelude.JsMap
use nexusts.Prelude.JsMap.{JsMap}
use nexusts.Prelude.JsSet
use nexusts.Prelude.JsSet.{JsSet}

pub record CacheEntry (V : Type 0) : Type 0 where
  pub value : V
  pub expires_at : ℕ
  pub tags : Option (List String)

pub record MemoryStore (V : Type 0) : Type 0 where
  pub entries : JsMap (CacheEntry V)
  pub tag_index : JsMap JsSet
  pub max : ℕ

abbrev pub is_empty_set : JsSet → Bool
is_empty_set [] = true
is_empty_set (k ∷ ks) = false

abbrev pub add_tags : String → List String → JsMap JsSet → JsMap JsSet
add_tags key [] index = index
add_tags key (tag ∷ tags) index =
    add_tags key tags (JsMap.set tag (JsSet.add key (get_or_else (JsMap.get tag index) [])) index)

-- The tags replace those of an earlier write; a write without tags leaves the index alone.
abbrev pub tag_key : String → Option (List String) → JsMap JsSet → JsMap JsSet
tag_key key none index = index
tag_key key (some tags) index = add_tags key tags (JsMap.map_values (JsSet.remove key) index)

module _ {V : Type 0} where
  abbrev pub constructed : ℕ → MemoryStore V
  constructed max = record { entries = []; tag_index = []; max = max }

  abbrev pub is_expired : ℕ → CacheEntry V → Bool
  is_expired now e = ltb 0 e.expires_at && leb e.expires_at now

  unfoldable pub get : ℕ → String → MemoryStore V → MemoryStore V × Option V
  get now key s = elim (JsMap.get key s.entries) [
    | none ↦ (s, none)
    | some e ↦
        if is_expired now e
        then (record s { entries = JsMap.delete key s.entries }, none)
        else (record s { entries = JsMap.set key e (JsMap.delete key s.entries) }, some e.value)
  ]

  -- Removes a key from the map and from every set of the index.
  unfoldable pub drop_key : String → MemoryStore V → MemoryStore V
  drop_key key s = record s {
    entries = JsMap.delete key s.entries;
    tag_index = JsMap.map_values (JsSet.remove key) s.tag_index;
  }

  -- The key that is evicted: the first in iteration order.
  abbrev pub oldest : JsMap (CacheEntry V) → Option String
  oldest [] = none
  oldest ((k, e) ∷ m) = some k

  abbrev pub evict : Option String → MemoryStore V → MemoryStore V
  evict none s = s
  evict (some k) s = drop_key k s

  unfoldable pub make_room : String → MemoryStore V → MemoryStore V
  unfolding drop_key
  make_room key s =
      if not (JsMap.has key s.entries) && leb s.max (length s.entries)
      then evict (oldest s.entries) s
      else s

  abbrev pub new_entry : ℕ → V → ℕ → Option (List String) → CacheEntry V
  new_entry now value ttl tags = record {
    value = value;
    expires_at = if ltb 0 ttl then now + ttl * 1000 else 0;
    tags = tags;
  }

  -- `ttl` is `opts.ttl ?? 0`, in seconds.
  unfoldable pub set : ℕ → String → V → ℕ → Option (List String) → MemoryStore V → MemoryStore V
  unfolding make_room
  set now key value ttl tags s =
      let s' = make_room key s in
      record s' {
        entries = JsMap.set key (new_entry now value ttl tags) s'.entries;
        tag_index = tag_key key tags s'.tag_index;
      }

  unfoldable pub delete : String → MemoryStore V → MemoryStore V × Bool
  unfolding drop_key
  delete key s = (drop_key key s, JsMap.has key s.entries)

  -- The loop of `clear` over a copy of the keys.
  clear_loop : (String → Bool) → List String → MemoryStore V → ℕ → MemoryStore V × ℕ
  clear_loop matches [] s n = (s, n)
  clear_loop matches (k ∷ ks) s n =
      clear_loop matches ks (if matches k then drop_key k s else s) (if matches k then n + 1 else n)

  unfoldable pub clear : Option (String → Bool) → MemoryStore V → MemoryStore V × ℕ
  unfolding clear_loop drop_key
  clear none s = (record s { entries = []; tag_index = [] }, length s.entries)
  clear (some matches) s = clear_loop matches (JsMap.keys s.entries) s 0

  -- `wrap` with nothing between its `get` and its `set`; `result` is what the function returns.
  unfoldable pub wrap : ℕ → ℕ → String → V → ℕ → MemoryStore V → MemoryStore V × V
  unfolding get set
  wrap now later key result ttl s =
      let (s', v) = get now key s in
      elim v [ some found ↦ (s', found) | none ↦ (set later key result ttl none s', result) ]

  -- Deletes the keys, and counts those that were there.
  purge : List String → JsMap (CacheEntry V) → ℕ → JsMap (CacheEntry V) × ℕ
  purge [] m n = (m, n)
  purge (k ∷ ks) m n = purge ks (JsMap.delete k m) (if JsMap.has k m then n + 1 else n)

  unfoldable pub invalidate_by_tag : String → MemoryStore V → MemoryStore V × ℕ
  unfolding purge
  invalidate_by_tag tag s = elim (JsMap.get tag s.tag_index) [
    | none ↦ (s, 0)
    | some ks ↦ (
      record s { entries = (purge ks s.entries 0).0; tag_index = JsMap.delete tag s.tag_index },
      (purge ks s.entries 0).1,
    )
  ]

  abbrev pub close : MemoryStore V → MemoryStore V
  close s = record s { entries = []; tag_index = [] }

  unfoldable pub sweep_expired : ℕ → MemoryStore V → MemoryStore V
  sweep_expired now s =
      let live = JsMap.keep (λ k e. not (is_expired now e)) s.entries in
      record s {
        entries = live;
        tag_index =
            JsMap.keep (λ tag ks. not (is_empty_set ks))
              (JsMap.map_values (filter (λ k. JsMap.has k live)) s.tag_index);
      }
