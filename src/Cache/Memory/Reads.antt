-- ===== src/Cache/Memory/Reads.antt =====
-- packages/cache/src/stores/memory.ts: what can be read after a call.
use nexusts.Prelude.{
  ℕ, ◌+◌, ◌*◌, ◌≤◌, ◌≡◌, refl, ◌∙◌, Bool, false, not, ◌&&◌, List, Option, none, some, String,
  str_eq, eq_iff, eq_refl, arith, leb, ltb, length, if◌then◌else◌, Option-cases, inl, inr, is_some,
  get_or_else,
}
use nexusts.Prelude.JsMap
use nexusts.Prelude.JsMap.{JsMap}
use nexusts.Cache.Memory.{
  CacheEntry, MemoryStore, is_expired, get, oldest, make_room, new_entry, set, delete, wrap,
}

abbrev pub is_victim : String → Option String → Bool
is_victim j none = false
is_victim j (some k) = str_eq k j

module _ {V : Type 0} where
  abbrev pub unexpired : ℕ → Option (CacheEntry V) → Option V
  unexpired now none = none
  unexpired now (some e) = if is_expired now e then none else some e.value

  -- What a read of the key at the time would give.
  abbrev pub peek : ℕ → String → MemoryStore V → Option V
  peek now key s = unexpired now (JsMap.get key s.entries)

  -- A read gives the unexpired value, and changes no later read of any key.
  get-peek :
      (now later : ℕ) (key j : String) (s : MemoryStore V)
      → now ≤ later
      → ((get now key s).1 ≡ peek now key s) × (peek later j (get now key s).0 ≡ peek later j s)
  unfolding get
  get-peek now later key j s le = elim (Option-cases (JsMap.get key s.entries)) [
    | inl e ↦ ground arith
    | inr (x, e) ↦ ground (
      arith,
      eq_iff key j,
      JsMap.get-delete key j s.entries,
      JsMap.get-set key j x (JsMap.delete key s.entries),
    )
  ]

  -- The key that a write has to evict: the first in iteration order, if the key is new and the map
  -- is full.
  abbrev pub victim : String → MemoryStore V → Option String
  victim key s =
      if not (JsMap.has key s.entries) && leb s.max (length s.entries)
      then oldest s.entries
      else none

  -- The value that was written, while its time to live (in seconds, 0 for ever) is not over.
  abbrev pub written : ℕ → ℕ → ℕ → V → Option V
  written now later ttl value =
      if ltb 0 ttl && leb (now + ttl * 1000) later then none else some value

  make_room-get :
      (key j : String) (s : MemoryStore V)
      → JsMap.get j (make_room key s).entries
        ≡ (if is_victim j (victim key s) then none else JsMap.get j s.entries)
  unfolding make_room
  make_room-get key j s = elim (Option-cases (oldest s.entries)) [
    | inl e ↦ ground arith
    | inr (k, e) ↦ ground (arith, JsMap.get-delete k j s.entries)
  ]

  -- After a write the key has its value for its time to live, the victim is gone, and every other
  -- key reads as before.
  pub set-peek :
      (now later : ℕ) (key j : String) (value : V) (ttl : ℕ) (tags : Option (List String))
      (s : MemoryStore V)
      → now ≤ later
      → peek later j (set now key value ttl tags s) ≡ (
          if str_eq key j
          then written now later ttl value
          else if is_victim j (victim key s)
          then none
          else peek later j s)
  unfolding set
  set-peek now later key j value ttl tags s le =
      rw
        (
          JsMap.get-set key j (new_entry now value ttl tags) (make_room key s).entries,
          make_room-get key j s,
        )
        (ground arith)

  -- `delete` says whether the key was in the map, after it the key cannot be read, and every other
  -- key reads as before.
  pub delete-peek :
      (now : ℕ) (key j : String) (s : MemoryStore V)
      → ((delete key s).1 ≡ JsMap.has key s.entries)
        × (peek now j (delete key s).0 ≡ (if str_eq key j then none else peek now j s))
  unfolding delete
  delete-peek now key j s = (refl, ground (arith, JsMap.get-delete key j s.entries))

  wrap-found :
      (now later : ℕ) (key : String) (result v : V) (ttl : ℕ) (s : MemoryStore V)
      → (get now key s).1 ≡ some v
      → wrap now later key result ttl s ≡ ((get now key s).0, v)
  unfolding wrap
  wrap-found now later key result v ttl s e = rw (e, wrap) refl

  wrap-missed :
      (now later : ℕ) (key : String) (result : V) (ttl : ℕ) (s : MemoryStore V)
      → (get now key s).1 ≡ none
      → wrap now later key result ttl s ≡ (set later key result ttl none (get now key s).0, result)
  unfolding wrap
  wrap-missed now later key result ttl s e = rw (e, wrap) refl

  -- `wrap` calls the function only if the key cannot be read; it returns what was read, or else the
  -- function's result, which later reads of the key give for its time to live.
  pub wrap-peek :
      (now later after : ℕ) (key : String) (result : V) (ttl : ℕ) (s : MemoryStore V)
      → now ≤ later
      → later ≤ after
      → ((wrap now later key result ttl s).1 ≡ get_or_else (peek now key s) result)
        × (peek after key (wrap now later key result ttl s).0 ≡ (
            if is_some (peek now key s) then peek after key s else written later after ttl result))
  wrap-peek now later after key result ttl s le le' =
      let (read, kept) = get-peek now after key key s (omega arith) in
      elim (Option-cases (peek now key s)) [
        | inl e ↦
            rw (wrap-missed now later key result ttl s (read ∙ e), e)
              (
                refl,
                set-peek later after key key result ttl none (get now key s).0 le'
                    ∙ rw (eq_refl key) refl,
              )
        | inr (v, e) ↦ rw (wrap-found now later key result v ttl s (read ∙ e), e) (refl, kept)
      ]
