-- ===== src/Cache/Memory/Size.antt =====
-- packages/cache/src/stores/memory.ts: the operations as one type, and the bound on the entries.
use nexusts.Prelude.{
  ℕ, ◌+◌, ◌≤◌, ◌<◌, ◌≡◌, refl, max, Bool, true, not, List, [], ◌∷◌, Option, none, some, String,
  arith, leb, length, if◌then◌else◌, Bool-cases, Option-cases, eq_refl, ◌&&◌, ◌⊎◌, inl, inr,
}
use nexusts.Prelude.JsMap
use nexusts.Prelude.JsMap.{JsMap, Distinct}
use nexusts.Prelude.JsSet
use nexusts.Prelude.JsSet.{JsSet}
use nexusts.Cache.Memory.{
  CacheEntry, MemoryStore, add_tags, tag_key, constructed, is_expired, get, drop_key, oldest, evict,
  make_room, new_entry, set, delete, clear_loop, clear, wrap, purge, invalidate_by_tag, close,
  sweep_expired, is_empty_set,
}

-- A call of the store, with the time at which it is made.
pub data Op (V : Type 0) : Type 0 where
  getting : ℕ → String → Op V
  setting : ℕ → String → V → ℕ → Option (List String) → Op V
  deleting : String → Op V
  clearing : Option (String → Bool) → Op V
  wrapping : ℕ → ℕ → String → V → ℕ → Op V
  invalidating : String → Op V
  closing : Op V
  sweeping : ℕ → Op V

add_tags-Distinct :
    (key : String) (tags : List String) (index : JsMap JsSet)
    → Distinct index
    → Distinct (add_tags key tags index)
add_tags-Distinct key [] index h = h
add_tags-Distinct key (tag ∷ tags) index h =
    add_tags-Distinct key tags _ (JsMap.Distinct-set tag _ index h)

tag_key-Distinct :
    (key : String) (tags : Option (List String)) (index : JsMap JsSet)
    → Distinct index
    → Distinct (tag_key key tags index)
tag_key-Distinct key none index h = h
tag_key-Distinct key (some tags) index h =
    add_tags-Distinct key tags _ (JsMap.Distinct-map_values (JsSet.remove key) index h)

module _ {V : Type 0} where
  abbrev pub perform : Op V → MemoryStore V → MemoryStore V
  perform (getting now key) s = (get now key s).0
  perform (setting now key value ttl tags) s = set now key value ttl tags s
  perform (deleting key) s = (delete key s).0
  perform (clearing pattern) s = (clear pattern s).0
  perform (wrapping now later key result ttl) s = (wrap now later key result ttl s).0
  perform (invalidating tag) s = (invalidate_by_tag tag s).0
  perform closing s = close s
  perform (sweeping now) s = sweep_expired now s

  unfoldable pub run : List (Op V) → MemoryStore V → MemoryStore V
  run [] s = s
  run (op ∷ ops) s = run ops (perform op s)

  -- No key occurs twice, and the map holds at most `max` entries (one if `max` is 0).
  pub record IsSound (cap : ℕ) (s : MemoryStore V) : Type 0 where
    pub limit : s.max ≡ cap
    pub distinct : Distinct s.entries
    pub bounded : length s.entries ≤ max 1 cap
    pub tags_distinct : Distinct s.tag_index

  pub oldest-cases :
      (m : JsMap (CacheEntry V))
      → ((oldest m ≡ none) × (length m ≡ 0))
        ⊎ ((k : String) × (oldest m ≡ some k) × (JsMap.has k m ≡ true))
  oldest-cases [] = inl (refl, refl)
  oldest-cases ((k, e) ∷ m) = inr (k, refl, ground (arith, eq_refl k))

  purge-Distinct :
      (ks : List String) (m : JsMap (CacheEntry V)) (n : ℕ)
      → Distinct m
      → Distinct (purge ks m n).0 × (length (purge ks m n).0 ≤ length m)
  unfolding purge
  purge-Distinct [] m n h = (h, omega arith)
  purge-Distinct (k ∷ ks) m n h =
      let (d, l) =
        purge-Distinct ks (JsMap.delete k m) (if JsMap.has k m then n + 1 else n)
          (JsMap.Distinct-delete k m h) in
      (d, omega (arith, l, JsMap.length-delete-le k m))

  module _ (cap : ℕ) where
    get-IsSound :
        (now : ℕ) (key : String) (s : MemoryStore V) → IsSound cap s → IsSound cap (get now key s).0
    unfolding get
    get-IsSound now key s h = elim (Option-cases (JsMap.get key s.entries)) [
      | inl e ↦ rw (e, get) h
      | inr (x, e) ↦ ground (
        arith,
        JsMap.Distinct-delete key s.entries h.distinct,
        JsMap.length-delete key s.entries h.distinct,
        JsMap.Distinct-set key x (JsMap.delete key s.entries),
        JsMap.length-set key x (JsMap.delete key s.entries),
        JsMap.get-delete_self key s.entries,
      )
    ]

    drop_key-IsSound :
        (key : String) (s : MemoryStore V) → IsSound cap s → IsSound cap (drop_key key s)
    unfolding drop_key
    drop_key-IsSound key s h = record {
      limit = h.limit;
      distinct = JsMap.Distinct-delete key s.entries h.distinct;
      bounded = omega (arith, JsMap.length-delete-le key s.entries, h.bounded);
      tags_distinct = JsMap.Distinct-map_values (JsSet.remove key) s.tag_index h.tags_distinct;
    }

    -- An eviction leaves a free place.
    evict-IsSound :
        (s : MemoryStore V)
        → IsSound cap s
        → IsSound cap (evict (oldest s.entries) s)
          × (length (evict (oldest s.entries) s).entries < max 1 cap)
    evict-IsSound s h = elim (oldest-cases s.entries) [
      | inl (e, empty) ↦ rw e (h, omega arith)
      | inr (k, e, there) ↦
          let less = JsMap.length-delete k s.entries h.distinct in
          rw e
            (drop_key-IsSound k s h, unfold drop_key in omega (arith, rw there at less, h.bounded))
    ]

    -- Room for the key: it is there already, or there is a free place.
    make_room-IsSound :
        (key : String) (s : MemoryStore V)
        → IsSound cap s
        → IsSound cap (make_room key s)
          × ((JsMap.has key (make_room key s).entries ≡ true)
              ⊎ (length (make_room key s).entries < max 1 cap))
    unfolding make_room
    make_room-IsSound key s h =
        elim (Bool-cases (not (JsMap.has key s.entries) && leb s.max (length s.entries))) [
          | inl full ↦ rw (full, make_room) ((evict-IsSound s h).0, inr (evict-IsSound s h).1)
          | inr free ↦ rw (free, make_room) (h, ground arith)
        ]

    set-IsSound :
        (now : ℕ) (key : String) (value : V) (ttl : ℕ) (tags : Option (List String))
        (s : MemoryStore V)
        → IsSound cap s
        → IsSound cap (set now key value ttl tags s)
    unfolding set
    set-IsSound now key value ttl tags s h =
        let (sound, room) = make_room-IsSound key s h in
        let m = (make_room key s).entries in
        record {
          limit = sound.limit;
          distinct = JsMap.Distinct-set key (new_entry now value ttl tags) m sound.distinct;
          bounded =
              ground
                (arith, room, sound.bounded, JsMap.length-set key (new_entry now value ttl tags) m);
          tags_distinct = tag_key-Distinct key tags (make_room key s).tag_index sound.tags_distinct;
        }

    clear_loop-IsSound :
        (matches : String → Bool) (ks : List String) (s : MemoryStore V) (n : ℕ)
        → IsSound cap s
        → IsSound cap (clear_loop matches ks s n).0
    unfolding clear_loop
    clear_loop-IsSound matches [] s n h = h
    clear_loop-IsSound matches (k ∷ ks) s n h =
        clear_loop-IsSound matches ks _ _ (ground (arith, drop_key-IsSound k s h))

    emptied-IsSound : (s : MemoryStore V) → IsSound cap s → IsSound cap (close s)
    emptied-IsSound s h = record {
      limit = h.limit;
      distinct = tt;
      bounded = omega arith;
      tags_distinct = tt;
    }

    wrap-IsSound :
        (now later : ℕ) (key : String) (result : V) (ttl : ℕ) (s : MemoryStore V)
        → IsSound cap s
        → IsSound cap (wrap now later key result ttl s).0
    unfolding wrap
    wrap-IsSound now later key result ttl s h = elim (Option-cases (get now key s).1) [
      | inl e ↦
          rw (e, wrap)
            (set-IsSound later key result ttl none (get now key s).0 (get-IsSound now key s h))
      | inr (v, e) ↦ rw (e, wrap) (get-IsSound now key s h)
    ]

    invalidate_by_tag-IsSound :
        (tag : String) (s : MemoryStore V) → IsSound cap s → IsSound cap (invalidate_by_tag tag s).0
    unfolding invalidate_by_tag
    invalidate_by_tag-IsSound tag s h = elim (Option-cases (JsMap.get tag s.tag_index)) [
      | inl e ↦ rw (e, invalidate_by_tag) h
      | inr (ks, e) ↦
          let (d, l) = purge-Distinct ks s.entries 0 h.distinct in
          rw (e, invalidate_by_tag)
            (record {
              limit = h.limit;
              distinct = d;
              bounded = omega (arith, l, h.bounded);
              tags_distinct = JsMap.Distinct-delete tag s.tag_index h.tags_distinct;
            })
    ]

    sweep_expired-IsSound :
        (now : ℕ) (s : MemoryStore V) → IsSound cap s → IsSound cap (sweep_expired now s)
    unfolding sweep_expired
    sweep_expired-IsSound now s h = record {
      limit = h.limit;
      distinct = JsMap.Distinct-keep (λ k e. not (is_expired now e)) s.entries h.distinct;
      bounded =
          omega (arith, JsMap.length-keep-le (λ k e. not (is_expired now e)) s.entries, h.bounded);
      tags_distinct =
          JsMap.Distinct-keep (λ tag ks. not (is_empty_set ks)) _
            (JsMap.Distinct-map_values _ s.tag_index h.tags_distinct);
    }

    pub perform-IsSound :
        (op : Op V) (s : MemoryStore V) → IsSound cap s → IsSound cap (perform op s)
    unfolding delete clear
    perform-IsSound (getting now key) s h = get-IsSound now key s h
    perform-IsSound (setting now key value ttl tags) s h = set-IsSound now key value ttl tags s h
    perform-IsSound (deleting key) s h = drop_key-IsSound key s h
    perform-IsSound (clearing none) s h = emptied-IsSound s h
    perform-IsSound (clearing (some matches)) s h =
        clear_loop-IsSound matches (JsMap.keys s.entries) s 0 h
    perform-IsSound (wrapping now later key result ttl) s h =
        wrap-IsSound now later key result ttl s h
    perform-IsSound (invalidating tag) s h = invalidate_by_tag-IsSound tag s h
    perform-IsSound closing s h = emptied-IsSound s h
    perform-IsSound (sweeping now) s h = sweep_expired-IsSound now s h

    run-IsSound_from :
        (ops : List (Op V)) (s : MemoryStore V) → IsSound cap s → IsSound cap (run ops s)
    unfolding run
    run-IsSound_from [] s h = h
    run-IsSound_from (op ∷ ops) s h = run-IsSound_from ops (perform op s) (perform-IsSound op s h)

    pub constructed-IsSound : IsSound cap (constructed cap)
    constructed-IsSound = record {
      limit = refl;
      distinct = tt;
      bounded = omega arith;
      tags_distinct = tt;
    }

    -- After any calls of a new store, in any order and at any times, no key occurs twice and the
    -- map holds at most `max` entries (one, if `max` is 0).
    pub run-IsSound : (ops : List (Op V)) → IsSound cap (run ops (constructed cap))
    run-IsSound ops = run-IsSound_from ops (constructed cap) constructed-IsSound
