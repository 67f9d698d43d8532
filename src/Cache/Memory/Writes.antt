-- ===== src/Cache/Memory/Writes.antt =====
-- packages/cache/src/stores/memory.ts: the index of tags over the calls that write and delete.
use nexusts.Prelude.{
  ℕ, ◌+◌, Bool, not, List, [], ◌∷◌, Option, none, some, String, arith, leb, length, Bool-cases,
  Option-cases, ◌&&◌, inl, inr,
}
use nexusts.Prelude.JsMap
use nexusts.Prelude.JsMap.{JsMap, Distinct}
use nexusts.Prelude.JsSet
use nexusts.Prelude.JsSet.{JsSet}
use nexusts.Cache.Memory.{
  MemoryStore, get, oldest, evict, make_room, new_entry, set, clear_loop, clear, clear, wrap,
}
use nexusts.Cache.Memory.Tags.{
  indexed-add_tags, indexed-remove, IsIndexed, get-IsIndexed, drop_key-IsIndexed,
}

module _ {V : Type 0} where
  evict-IsIndexed : (o : Option String) (s : MemoryStore V) → IsIndexed s → IsIndexed (evict o s)
  evict-IsIndexed none s h = h
  evict-IsIndexed (some k) s h = drop_key-IsIndexed k s h

  make_room-IsIndexed :
      (key : String) (s : MemoryStore V) → IsIndexed s → IsIndexed (make_room key s)
  unfolding make_room
  make_room-IsIndexed key s h =
      elim (Bool-cases (not (JsMap.has key s.entries) && leb s.max (length s.entries))) [
        | inl full ↦ rw (full, make_room) (evict-IsIndexed (oldest s.entries) s h)
        | inr free ↦ rw (free, make_room) h
      ]

  pub set-IsIndexed :
      (now : ℕ) (key : String) (value : V) (ttl : ℕ) (tags : Option (List String))
      (s : MemoryStore V)
      → IsIndexed s
      → IsIndexed (set now key value ttl tags s)
  unfolding set
  set-IsIndexed now key value ttl none s h t k = ground (
    arith,
    make_room-IsIndexed key s h t k,
    JsMap.get-set key k (new_entry now value ttl none) (make_room key s).entries,
  )
  set-IsIndexed now key value ttl (some tags) s h t k =
      rw
        (
          indexed-add_tags key tags t k
              (JsMap.map_values (JsSet.remove key) (make_room key s).tag_index),
          indexed-remove key t k (make_room key s).tag_index,
          JsMap.get-set key k (new_entry now value ttl (some tags)) (make_room key s).entries,
        )
        (ground (arith, make_room-IsIndexed key s h t k))

  clear_loop-IsIndexed :
      (matches : String → Bool) (ks : List String) (s : MemoryStore V) (n : ℕ)
      → IsIndexed s
      → IsIndexed (clear_loop matches ks s n).0
  unfolding clear_loop
  clear_loop-IsIndexed matches [] s n h = h
  clear_loop-IsIndexed matches (k ∷ ks) s n h = elim (Bool-cases (matches k)) [
    | inl e ↦
        rw (e, clear_loop) (clear_loop-IsIndexed matches ks _ (n + 1) (drop_key-IsIndexed k s h))
    | inr e ↦ rw (e, clear_loop) (clear_loop-IsIndexed matches ks s n h)
  ]

  pub wrap-IsIndexed :
      (now later : ℕ) (key : String) (result : V) (ttl : ℕ) (s : MemoryStore V)
      → IsIndexed s
      → IsIndexed (wrap now later key result ttl s).0
  unfolding wrap
  wrap-IsIndexed now later key result ttl s h = elim (Option-cases (get now key s).1) [
    | inl e ↦
        rw (e, wrap)
          (set-IsIndexed later key result ttl none (get now key s).0 (get-IsIndexed now key s h))
    | inr (v, e) ↦ rw (e, wrap) (get-IsIndexed now key s h)
  ]

  pub clear-IsIndexed :
      (pattern : Option (String → Bool)) (s : MemoryStore V)
      → IsIndexed s
      → IsIndexed (clear pattern s).0
  unfolding clear
  clear-IsIndexed none s h = λ t k e. e
  clear-IsIndexed (some matches) s h = clear_loop-IsIndexed matches (JsMap.keys s.entries) s 0 h
