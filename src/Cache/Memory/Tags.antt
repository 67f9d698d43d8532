-- ===== src/Cache/Memory/Tags.antt =====
-- packages/cache/src/stores/memory.ts: the index of tags.
use nexusts.Prelude.{
  ℕ, ◌≡◌, refl, ◌∙◌, Bool, true, false, not, List, [], ◌∷◌, Option, none, some, String, str_eq,
  arith, Option-cases, eq_iff, ◌&&◌, ◌||◌, inl, inr, get_or_else,
}
use nexusts.Prelude.JsMap
use nexusts.Prelude.JsMap.{JsMap, Distinct}
use nexusts.Prelude.JsSet
use nexusts.Prelude.JsSet.{JsSet}
use nexusts.Cache.Memory.{CacheEntry, MemoryStore, add_tags, get, drop_key}

-- Whether the index has the key under the tag.
abbrev pub indexed : String → String → JsMap JsSet → Bool
indexed tag key index = JsSet.has key (get_or_else (JsMap.get tag index) [])

indexed-set :
    (tag key t k : String) (index : JsMap JsSet)
    → indexed t k (JsMap.set tag (JsSet.add key (get_or_else (JsMap.get tag index) [])) index)
      ≡ (str_eq tag t && str_eq key k || indexed t k index)
indexed-set tag key t k index =
    rw (JsMap.get-set tag t (JsSet.add key (get_or_else (JsMap.get tag index) [])) index)
      (ground (arith, JsSet.has-add key k (get_or_else (JsMap.get tag index) []), eq_iff tag t))

-- After `add_tags` the index has the key under the tags, and what it had before.
pub indexed-add_tags :
    (key : String) (tags : List String) (t k : String) (index : JsMap JsSet)
    → indexed t k (add_tags key tags index)
      ≡ (JsSet.has t tags && str_eq key k || indexed t k index)
indexed-add_tags key [] t k index = refl
indexed-add_tags key (tag ∷ tags) t k index =
    indexed-add_tags key tags t k _ ∙ rw (indexed-set tag key t k index) (ground arith)

pub indexed-remove :
    (key t k : String) (index : JsMap JsSet)
    → indexed t k (JsMap.map_values (JsSet.remove key) index)
      ≡ (not (str_eq key k) && indexed t k index)
indexed-remove key t k index =
    rw (JsMap.get-map_values (JsSet.remove key) t index) (elim (Option-cases (JsMap.get t index)) [
      | inl e ↦ rw e (ground arith)
      | inr (ks, e) ↦ rw e (JsSet.has-remove key k ks)
    ])

module _ {V : Type 0} where
  abbrev pub entry_has_tag : String → Option (CacheEntry V) → Bool
  entry_has_tag t none = false
  entry_has_tag t (some e) = JsSet.has t (get_or_else e.tags [])

  -- Whether the entry of the key was written with the tag.
  abbrev pub tagged : String → String → MemoryStore V → Bool
  tagged t k s = entry_has_tag t (JsMap.get k s.entries)

  -- The index has every key under the tags that its entry was written with.
  abbrev pub IsIndexed : MemoryStore V → Type 0
  IsIndexed s = (t k : String) → tagged t k s ≡ true → indexed t k s.tag_index ≡ true

  pub drop_key-IsIndexed :
      (key : String) (s : MemoryStore V) → IsIndexed s → IsIndexed (drop_key key s)
  unfolding drop_key
  drop_key-IsIndexed key s h t k e =
      ground (arith, indexed-remove key t k s.tag_index, JsMap.get-delete key k s.entries, h t k)

  pub get-IsIndexed :
      (now : ℕ) (key : String) (s : MemoryStore V) → IsIndexed s → IsIndexed (get now key s).0
  unfolding get
  get-IsIndexed now key s h t k = elim (Option-cases (JsMap.get key s.entries)) [
    | inl e ↦ rw (e, get) (h t k)
    | inr (x, e) ↦ ground (
      arith,
      eq_iff key k,
      h t k,
      JsMap.get-delete key k s.entries,
      JsMap.get-set key k x (JsMap.delete key s.entries),
    )
  ]
