-- ===== src/Cache/Service/Invalidation.antt =====
-- packages/cache/src/cache.service.ts: removal by tag through the service.
use nexusts.Prelude.{
  subst, sym, ℕ, ◌≡◌, refl, ◌∙◌, Bool, false, List, [], ◌∷◌, String, arith, get_or_else, ◌||◌,
}
use nexusts.Prelude.JsSet
use nexusts.Cache.Memory.Size.{Op}
use nexusts.Cache.Memory.Size
use nexusts.Cache.Memory.Unused.{Unindexed, perform-Unindexed, invalidate-Unindexed}
use nexusts.Cache.Service.{
  new_service, CacheService, Call, getting, setting, deleting, clearing, wrapping, invalidating,
  collecting, tags_of, prefixed, perform, run, get, set, delete, clear, wrap, invalidate_by_tag,
  key, prefixed_tag, store_pattern, ttl_of,
}

-- Whether the call passes the tag to `set`.
abbrev pub passes_tag : {V : Type 0} → String → Call V → Bool
passes_tag tag (setting now k value opts) = JsSet.has tag (get_or_else (tags_of opts) [])
passes_tag tag (getting now k) = false
passes_tag tag (deleting k) = false
passes_tag tag (clearing pattern) = false
passes_tag tag (wrapping now later k result ttl) = false
passes_tag tag (invalidating t) = false
passes_tag tag collecting = false

abbrev pub any_passes : {V : Type 0} → String → List (Call V) → Bool
any_passes tag [] = false
any_passes tag (c ∷ cs) = passes_tag tag c || any_passes tag cs

module _ {V : Type 0} (glob : String → String → Bool) (tag : String) where
  perform-Unwritten :
      (c : Call V) (s : CacheService V)
      → passes_tag tag c ≡ false
      → Unindexed tag s.store
      → Unindexed tag (perform glob c s).store
  unfolding get set delete clear wrap invalidate_by_tag
  perform-Unwritten (getting now k) s e h =
      perform-Unindexed tag (Size.Op.getting now (key k s)) s.store refl h
  perform-Unwritten (setting now k value opts) s e h =
      perform-Unindexed tag
        (Size.Op.setting now (key k s) value (ttl_of s.default_ttl opts) (tags_of opts)) s.store e h
  perform-Unwritten (deleting k) s e h =
      perform-Unindexed tag (Size.Op.deleting (key k s)) s.store refl h
  perform-Unwritten (clearing pattern) s e h =
      perform-Unindexed tag (Size.Op.clearing (store_pattern glob pattern s)) s.store refl h
  perform-Unwritten (wrapping now later k result ttl) s e h =
      perform-Unindexed tag
        (Size.Op.wrapping now later (key k s) result (get_or_else ttl s.default_ttl)) s.store refl h
  perform-Unwritten (invalidating t) s e h =
      perform-Unindexed tag (Size.Op.invalidating (prefixed_tag t s)) s.store refl h
  perform-Unwritten collecting s e h = h

  run-Unwritten :
      (cs : List (Call V)) (s : CacheService V)
      → any_passes tag cs ≡ false
      → Unindexed tag s.store
      → Unindexed tag (run glob cs s).store
  unfolding run
  run-Unwritten [] s e h = h
  run-Unwritten (c ∷ cs) s e h =
      run-Unwritten cs (perform glob c s) (ground arith) (perform-Unwritten c s (ground arith) h)

module _ {V : Type 0} (glob : String → String → Bool) where
  perform-prefix : (c : Call V) (s : CacheService V) → (perform glob c s).prefix ≡ s.prefix
  unfolding get set delete clear wrap invalidate_by_tag
  perform-prefix (getting now k) s = refl
  perform-prefix (setting now k value opts) s = refl
  perform-prefix (deleting k) s = refl
  perform-prefix (clearing pattern) s = refl
  perform-prefix (wrapping now later k result ttl) s = refl
  perform-prefix (invalidating t) s = refl
  perform-prefix collecting s = refl

  run-prefix : (cs : List (Call V)) (s : CacheService V) → (run glob cs s).prefix ≡ s.prefix
  unfolding run
  run-prefix [] s = refl
  run-prefix (c ∷ cs) s = run-prefix cs (perform glob c s) ∙ perform-prefix c s

  invalidate-Unwritten :
      (tag : String) (s : CacheService V)
      → Unindexed (prefixed_tag tag s) s.store
      → invalidate_by_tag tag s ≡ (s, 0)
  unfolding invalidate_by_tag
  invalidate-Unwritten tag s h = rw (invalidate-Unindexed (prefixed_tag tag s) s.store h) refl

  -- `set` hands its tags to the store as they are, and `invalidate_by_tag` prefixes its tag: after
  -- any calls of a new service, none of which passed the prefixed tag itself to `set`, an
  -- invalidation of the tag removes nothing, whatever was written with the tag.
  pub invalidates_nothing :
      (max default_ttl : ℕ) (prefix tag : String) (cs : List (Call V))
      → any_passes (prefixed prefix tag) cs ≡ false
      → let s = run glob cs (new_service max default_ttl prefix) in invalidate_by_tag tag s ≡ (s, 0)
  invalidates_nothing max default_ttl prefix tag cs e =
      let new = new_service max default_ttl prefix in
      let s = run glob cs new in
      invalidate-Unwritten tag s (
        subst (λ p. Unindexed (prefixed p tag) s.store) (sym (run-prefix cs new))
          (run-Unwritten glob (prefixed prefix tag) cs new e refl))
