-- ===== src/Cache/Memory/Sweep.antt =====
-- packages/cache/src/stores/memory.ts: the index of tags over a sweep of the expired entries.
use nexusts.Prelude.{
  is_some, subst, ℕ, ◌≡◌, refl, ◌∙◌, Bool, true, not, [], ◌∷◌, Option, none, some, String, arith,
  if◌then◌else◌, Option-cases, eq_iff, ◌&&◌, inl, inr, get_or_else, filter,
}
use nexusts.Prelude.JsMap
use nexusts.Prelude.JsMap.{JsMap, Distinct}
use nexusts.Prelude.JsSet
use nexusts.Prelude.JsSet.{JsSet}
use nexusts.Cache.Memory.{CacheEntry, MemoryStore, is_expired, sweep_expired, is_empty_set}
use nexusts.Cache.Memory.Size.{IsSound}
use nexusts.Cache.Memory.Tags.{indexed, IsIndexed, entry_has_tag}

has-filter :
    (k : String) (p : String → Bool) (ks : JsSet)
    → JsSet.has k (filter p ks) ≡ (p k && JsSet.has k ks)
has-filter k p [] = ground arith
has-filter k p (j ∷ ks) = ground (arith, has-filter k p ks, eq_iff j k)

-- An empty set is as good as none.
has-nonempty :
    (k : String) (ks : JsSet)
    → JsSet.has k (get_or_else (if not (is_empty_set ks) then some ks else none) [])
      ≡ JsSet.has k ks
has-nonempty k [] = refl
has-nonempty k (j ∷ ks) = refl

module _ {V : Type 0} where
  passes-has_tag :
      (now : ℕ) (t k : String) (o : Option (CacheEntry V))
      → entry_has_tag t (JsMap.passes (λ k e. not (is_expired now e)) k o) ≡ true
      → entry_has_tag t o ≡ true
  passes-has_tag now t k none h = h
  passes-has_tag now t k (some e) h = ground arith

  has_tag-is_some :
      (t : String) (o : Option (CacheEntry V)) → entry_has_tag t o ≡ true → is_some o ≡ true
  has_tag-is_some t none h = h
  has_tag-is_some t (some e) h = refl

  sweep-index :
      (now cap : ℕ) (t k : String) (s : MemoryStore V)
      → IsSound cap s
      → indexed t k (sweep_expired now s).tag_index
        ≡ (JsMap.has k (sweep_expired now s).entries && indexed t k s.tag_index)
  unfolding sweep_expired
  sweep-index now cap t k s h =
      let live = JsMap.keep (λ k e. not (is_expired now e)) s.entries in
      rw
        (
          JsMap.get-keep (λ tag ks. not (is_empty_set ks)) t
              (JsMap.map_values (filter (λ k. JsMap.has k live)) s.tag_index)
              (JsMap.Distinct-map_values _ s.tag_index h.tags_distinct),
          JsMap.get-map_values (filter (λ k. JsMap.has k live)) t s.tag_index,
        )
        (elim (Option-cases (JsMap.get t s.tag_index)) [
          | inl e ↦ rw e (ground arith)
          | inr (ks, e) ↦ rw e (
              has-nonempty k (filter (λ k. JsMap.has k live) ks)
              ∙ has-filter k (λ k. JsMap.has k live) ks)
        ])

  sweep-get :
      (now cap : ℕ) (k : String) (s : MemoryStore V)
      → IsSound cap s
      → JsMap.get k (sweep_expired now s).entries
        ≡ JsMap.passes (λ k e. not (is_expired now e)) k (JsMap.get k s.entries)
  unfolding sweep_expired
  sweep-get now cap k s h = JsMap.get-keep (λ k e. not (is_expired now e)) k s.entries h.distinct

  pub sweep_expired-IsIndexed :
      (now cap : ℕ) (s : MemoryStore V)
      → IsSound cap s
      → IsIndexed s
      → IsIndexed (sweep_expired now s)
  sweep_expired-IsIndexed now cap s sound h t k e =
      let e' = subst (λ o. entry_has_tag t o ≡ true) (sweep-get now cap k s sound) e in
      rw
        (
          sweep-index now cap t k s sound,
          has_tag-is_some t (JsMap.get k (sweep_expired now s).entries) e,
        )
        (h t k (passes-has_tag now t k (JsMap.get k s.entries) e'))
