-- ===== src/Cache/Memory/Unused.antt =====
-- packages/cache/src/stores/memory.ts: a tag that no call writes is not in the index.
use nexusts.Prelude.{
  ℕ, ◌≡◌, refl, ◌∙◌, Bool, false, not, List, [], ◌∷◌, Option, none, some, String, arith,
  get_or_else, ◌&&◌, leb, length, inl, inr, Option-cases, Bool-cases,
}
use nexusts.Prelude.JsMap
use nexusts.Prelude.JsMap.{JsMap}
use nexusts.Prelude.JsSet
use nexusts.Prelude.JsSet.{JsSet}
use nexusts.Cache.Memory.{
  MemoryStore, add_tags, drop_key, evict, make_room, oldest, clear_loop, sweep_expired,
  is_empty_set, tag_key, get, set, delete, clear, wrap, invalidate_by_tag,
}
use nexusts.Cache.Memory.Size.{
  Op, getting, setting, deleting, clearing, wrapping, invalidating, closing, sweeping, perform,
}

-- Whether the call writes the tag.
abbrev pub writes_tag : {V : Type 0} → String → Op V → Bool
writes_tag tag (setting now key value ttl tags) = JsSet.has tag (get_or_else tags [])
writes_tag tag (getting now key) = false
writes_tag tag (deleting key) = false
writes_tag tag (clearing pattern) = false
writes_tag tag (wrapping now later key result ttl) = false
writes_tag tag (invalidating t) = false
writes_tag tag closing = false
writes_tag tag (sweeping now) = false

add_tags-absent :
    (key tag : String) (tags : List String) (index : JsMap JsSet)
    → JsSet.has tag tags ≡ false
    → JsMap.has tag index ≡ false
    → JsMap.has tag (add_tags key tags index) ≡ false
add_tags-absent key tag [] index e h = h
add_tags-absent key tag (t ∷ tags) index e h = add_tags-absent key tag tags _ (ground arith) (
    rw (JsMap.get-set t tag (JsSet.add key (get_or_else (JsMap.get t index) [])) index)
      (ground arith))

tag_key-absent :
    (key tag : String) (tags : Option (List String)) (index : JsMap JsSet)
    → JsSet.has tag (get_or_else tags []) ≡ false
    → JsMap.has tag index ≡ false
    → JsMap.has tag (tag_key key tags index) ≡ false
tag_key-absent key tag none index e h = h
tag_key-absent key tag (some tags) index e h =
    add_tags-absent key tag tags _ e (JsMap.has-map_values (JsSet.remove key) tag index ∙ h)

module _ {V : Type 0} where
  -- The index does not have the tag.
  abbrev pub Unindexed : String → MemoryStore V → Type 0
  Unindexed tag s = JsMap.has tag s.tag_index ≡ false

  module _ (tag : String) where
    get-Unindexed :
        (now : ℕ) (key : String) (s : MemoryStore V)
        → Unindexed tag s
        → Unindexed tag (get now key s).0
    unfolding get
    get-Unindexed now key s h = elim (Option-cases (JsMap.get key s.entries)) [
      | inl e ↦ rw (e, get) h
      | inr (x, e) ↦ ground arith
    ]

    drop_key-Unindexed :
        (key : String) (s : MemoryStore V) → Unindexed tag s → Unindexed tag (drop_key key s)
    unfolding drop_key
    drop_key-Unindexed key s h = JsMap.has-map_values (JsSet.remove key) tag s.tag_index ∙ h

    evict-Unindexed :
        (o : Option String) (s : MemoryStore V) → Unindexed tag s → Unindexed tag (evict o s)
    evict-Unindexed none s h = h
    evict-Unindexed (some k) s h = drop_key-Unindexed k s h

    set-Unindexed :
        (now : ℕ) (key : String) (value : V) (ttl : ℕ) (tags : Option (List String))
        (s : MemoryStore V)
        → JsSet.has tag (get_or_else tags []) ≡ false
        → Unindexed tag s
        → Unindexed tag (set now key value ttl tags s)
    unfolding set make_room
    set-Unindexed now key value ttl tags s e h =
        tag_key-absent key tag tags _ e
          (elim (Bool-cases (not (JsMap.has key s.entries) && leb s.max (length s.entries))) [
            | inl full ↦ rw (full, make_room) (evict-Unindexed (oldest s.entries) s h)
            | inr free ↦ rw (free, make_room) h
          ])

    clear_loop-Unindexed :
        (matches : String → Bool) (ks : List String) (s : MemoryStore V) (n : ℕ)
        → Unindexed tag s
        → Unindexed tag (clear_loop matches ks s n).0
    unfolding clear_loop
    clear_loop-Unindexed matches [] s n h = h
    clear_loop-Unindexed matches (k ∷ ks) s n h =
        clear_loop-Unindexed matches ks _ _ (ground (arith, drop_key-Unindexed k s h))

    wrap-Unindexed :
        (now later : ℕ) (key : String) (result : V) (ttl : ℕ) (s : MemoryStore V)
        → Unindexed tag s
        → Unindexed tag (wrap now later key result ttl s).0
    unfolding wrap
    wrap-Unindexed now later key result ttl s h = elim (Option-cases (get now key s).1) [
      | inl e ↦
          rw (e, wrap)
            (set-Unindexed later key result ttl none (get now key s).0 refl
              (get-Unindexed now key s h))
      | inr (v, e) ↦ rw (e, wrap) (get-Unindexed now key s h)
    ]

    -- A tag that is not in the index has nothing to remove.
    pub invalidate-Unindexed :
        (s : MemoryStore V) → Unindexed tag s → invalidate_by_tag tag s ≡ (s, 0)
    unfolding invalidate_by_tag
    invalidate-Unindexed s h = elim (Option-cases (JsMap.get tag s.tag_index)) [
      | inl e ↦ rw (e, invalidate_by_tag) refl
      | inr (ks, e) ↦ ground arith
    ]

    invalidate_other-Unindexed :
        (t : String) (s : MemoryStore V) → Unindexed tag s → Unindexed tag (invalidate_by_tag t s).0
    unfolding invalidate_by_tag
    invalidate_other-Unindexed t s h = elim (Option-cases (JsMap.get t s.tag_index)) [
      | inl e ↦ rw (e, invalidate_by_tag) h
      | inr (ks, e) ↦ ground (arith, JsMap.get-delete t tag s.tag_index)
    ]

    sweep_expired-Unindexed :
        (now : ℕ) (s : MemoryStore V) → Unindexed tag s → Unindexed tag (sweep_expired now s)
    unfolding sweep_expired
    sweep_expired-Unindexed now s h =
        JsMap.keep-absent (λ tag ks. not (is_empty_set ks)) tag _
          (JsMap.has-map_values _ tag s.tag_index ∙ h)

    pub perform-Unindexed :
        (op : Op V) (s : MemoryStore V)
        → writes_tag tag op ≡ false
        → Unindexed tag s
        → Unindexed tag (perform op s)
    unfolding delete clear
    perform-Unindexed (getting now key) s e h = get-Unindexed now key s h
    perform-Unindexed (setting now key value ttl tags) s e h =
        set-Unindexed now key value ttl tags s e h
    perform-Unindexed (deleting key) s e h = drop_key-Unindexed key s h
    perform-Unindexed (clearing none) s e h = refl
    perform-Unindexed (clearing (some matches)) s e h =
        clear_loop-Unindexed matches (JsMap.keys s.entries) s 0 h
    perform-Unindexed (wrapping now later key result ttl) s e h =
        wrap-Unindexed now later key result ttl s h
    perform-Unindexed (invalidating t) s e h = invalidate_other-Unindexed t s h
    perform-Unindexed closing s e h = refl
    perform-Unindexed (sweeping now) s e h = sweep_expired-Unindexed now s h
