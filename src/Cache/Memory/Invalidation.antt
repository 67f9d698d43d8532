-- ===== src/Cache/Memory/Invalidation.antt =====
-- packages/cache/src/stores/memory.ts: removal by tag, and the index of tags over all calls.
use nexusts.Prelude.{
  ℕ, ◌+◌, ◌≡◌, refl, ◌∙◌, Bool, true, false, not, List, [], ◌∷◌, Option, none, some, String, str_eq,
  arith, if◌then◌else◌, Option-cases, eq_iff, eq_refl, ◌&&◌, inl, inr,
}
use nexusts.Prelude.JsMap
use nexusts.Prelude.JsMap.{JsMap, Distinct}
use nexusts.Prelude.JsSet
use nexusts.Prelude.JsSet.{JsSet}
use nexusts.Cache.Memory.{
  CacheEntry, MemoryStore, constructed, make_room, new_entry, set, delete, purge, invalidate_by_tag,
}
use nexusts.Cache.Memory.Size.{
  Op, getting, setting, deleting, clearing, wrapping, invalidating, closing, sweeping, perform, run,
  IsSound, constructed-IsSound, perform-IsSound,
}
use nexusts.Cache.Memory.Tags.{
  indexed, indexed-add_tags, tagged, IsIndexed, get-IsIndexed, drop_key-IsIndexed, entry_has_tag,
}
use nexusts.Cache.Memory.Writes.{set-IsIndexed, clear-IsIndexed, wrap-IsIndexed}
use nexusts.Cache.Memory.Sweep.{sweep_expired-IsIndexed}

module _ {V : Type 0} where
  purge-get :
      (ks : List String) (m : JsMap (CacheEntry V)) (n : ℕ) (j : String)
      → JsMap.get j (purge ks m n).0 ≡ (if JsSet.has j ks then none else JsMap.get j m)
  unfolding purge
  purge-get [] m n j = refl
  purge-get (k ∷ ks) m n j =
      purge-get ks (JsMap.delete k m) (if JsMap.has k m then n + 1 else n) j
      ∙ rw (JsMap.get-delete k j m) (ground arith)

  none_tagged :
      (tag : String) (o : Option (CacheEntry V)) (b : Bool)
      → (entry_has_tag tag o ≡ true → b ≡ true)
      → entry_has_tag tag (if b then none else o) ≡ false
  none_tagged tag o true h = refl
  none_tagged tag o false h = ground arith

  -- What is in the map after a removal by tag: the entries whose key the index does not have under
  -- the tag.
  invalidate-get :
      (tag j : String) (s : MemoryStore V)
      → JsMap.get j (invalidate_by_tag tag s).0.entries
        ≡ (if indexed tag j s.tag_index then none else JsMap.get j s.entries)
  unfolding invalidate_by_tag
  invalidate-get tag j s = elim (Option-cases (JsMap.get tag s.tag_index)) [
    | inl e ↦ rw (e, invalidate_by_tag) refl
    | inr (ks, e) ↦ rw (e, invalidate_by_tag) (purge-get ks s.entries 0 j)
  ]

  invalidate-indexed :
      (tag t k : String) (s : MemoryStore V)
      → indexed t k (invalidate_by_tag tag s).0.tag_index
        ≡ (not (str_eq tag t) && indexed t k s.tag_index)
  unfolding invalidate_by_tag
  invalidate-indexed tag t k s = elim (Option-cases (JsMap.get tag s.tag_index)) [
    | inl e ↦ ground (arith, eq_iff tag t)
    | inr (ks, e) ↦ ground (arith, JsMap.get-delete tag t s.tag_index)
  ]

  invalidate_by_tag-IsIndexed :
      (tag : String) (s : MemoryStore V) → IsIndexed s → IsIndexed (invalidate_by_tag tag s).0
  invalidate_by_tag-IsIndexed tag s h t k =
      rw (invalidate-get tag k s, invalidate-indexed tag t k s)
        (ground (arith, h t k, eq_iff tag t))

  perform-IsIndexed :
      (cap : ℕ) (op : Op V) (s : MemoryStore V)
      → IsSound cap s
      → IsIndexed s
      → IsIndexed (perform op s)
  unfolding delete
  perform-IsIndexed cap (getting now key) s g h = get-IsIndexed now key s h
  perform-IsIndexed cap (setting now key value ttl tags) s g h =
      set-IsIndexed now key value ttl tags s h
  perform-IsIndexed cap (deleting key) s g h = drop_key-IsIndexed key s h
  perform-IsIndexed cap (clearing pattern) s g h = clear-IsIndexed pattern s h
  perform-IsIndexed cap (wrapping now later key result ttl) s g h =
      wrap-IsIndexed now later key result ttl s h
  perform-IsIndexed cap (invalidating tag) s g h = invalidate_by_tag-IsIndexed tag s h
  perform-IsIndexed cap closing s g h = λ t k e. e
  perform-IsIndexed cap (sweeping now) s g h = sweep_expired-IsIndexed now cap s g h

  run-IsIndexed_from :
      (cap : ℕ) (ops : List (Op V)) (s : MemoryStore V)
      → IsSound cap s
      → IsIndexed s
      → IsIndexed (run ops s)
  unfolding run
  run-IsIndexed_from cap [] s g h = h
  run-IsIndexed_from cap (op ∷ ops) s g h =
      run-IsIndexed_from cap ops (perform op s) (perform-IsSound cap op s g)
        (perform-IsIndexed cap op s g h)

  -- After any calls of a new store, `invalidate_by_tag` leaves no entry that was written with the
  -- tag, and of the other entries it removes exactly those whose key the index has under the tag.
  pub run-invalidates :
      (cap : ℕ) (ops : List (Op V)) (tag key : String)
      → let s = run ops (constructed cap) in
        (tagged tag key (invalidate_by_tag tag s).0 ≡ false)
        × (JsMap.get key (invalidate_by_tag tag s).0.entries
            ≡ (if indexed tag key s.tag_index then none else JsMap.get key s.entries))
  run-invalidates cap ops tag key =
      let s = run ops (constructed cap) in
      let h = run-IsIndexed_from cap ops (constructed cap) (constructed-IsSound cap) (λ t k e. e) in
      (
        rw (invalidate-get tag key s)
            (none_tagged tag (JsMap.get key s.entries) (indexed tag key s.tag_index) (h tag key)),
        invalidate-get tag key s,
      )

  set-has :
      (now ttl : ℕ) (key : String) (value : V) (tags : Option (List String)) (s : MemoryStore V)
      → JsMap.has key (set now key value ttl tags s).entries ≡ true
  unfolding set
  set-has now ttl key value tags s =
      rw (JsMap.get-set_self key (new_entry now value ttl tags) (make_room key s).entries) refl

  set-indexed :
      (now ttl : ℕ) (key tag : String) (value : V) (tags : List String) (s : MemoryStore V)
      → JsSet.has tag tags ≡ true
      → indexed tag key (set now key value ttl (some tags) s).tag_index ≡ true
  unfolding set
  set-indexed now ttl key tag value tags s e =
      rw
        (
          indexed-add_tags key tags tag key
              (JsMap.map_values (JsSet.remove key) (make_room key s).tag_index),
          e,
          eq_refl key,
        )
        refl

  set_untagged-tag_index :
      (now ttl : ℕ) (key : String) (value : V) (s : MemoryStore V)
      → JsMap.has key s.entries ≡ true
      → (set now key value ttl none s).tag_index ≡ s.tag_index
  unfolding set make_room
  set_untagged-tag_index now ttl key value s e = rw (e, set, make_room) refl

  -- A key that is written with tags and then again without any keeps its place in the index, so that
  -- an invalidation of one of the old tags removes the value that was written without tags.
  pub set-invalidates_untagged :
      (now later ttl : ℕ) (key tag : String) (old value : V) (tags : List String)
      (s : MemoryStore V)
      → JsSet.has tag tags ≡ true
      → JsMap.get key
          (invalidate_by_tag tag
            (set later key value ttl none (set now key old ttl (some tags) s))).0.entries
        ≡ none
  set-invalidates_untagged now later ttl key tag old value tags s e =
      let s' = set now key old ttl (some tags) s in
      invalidate-get tag key (set later key value ttl none s')
      ∙ rw
          (
            set_untagged-tag_index later ttl key value s' (set-has now ttl key old (some tags) s),
            set-indexed now ttl key tag old tags s e,
          )
          refl
