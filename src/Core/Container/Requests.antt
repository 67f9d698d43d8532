-- ===== src/Core/Container/Requests.antt =====
-- packages/core/src/di/container.ts: providers with the scope of a request, while one is active.
use nexusts.Prelude.{
  ℕ, zero, suc, ◌≡◌, ◌≢◌, refl, sym, ap, subst, ◌∙◌, true, false, Option, none, some, String,
  Bool-cases, inl, inr, is_some,
}
use nexusts.Prelude.JsMap
use nexusts.Prelude.JsMap.{JsMap}
use nexusts.Prelude.JsSet
use nexusts.Core.Provider.{Value, undefined, request, ProviderRecord}
use nexusts.Core.World.{World, Outcome, returned, thrown, out_of_fuel, Resolver}
use nexusts.Core.Instantiate.{instantiate}
use nexusts.Core.Container.{
  memoised, cached_in_request, resolve_in_request, resolve_new, resolve, store_in_request,
  is_singleton, cache_in_request,
}
use nexusts.Core.Container.Growth.{WorldGrows, After, in_request}
use nexusts.Core.Container.Instances.{instantiate-IsGrowing}
use nexusts.Core.Container.Resolution.{resolve-IsGrowing}
use nexusts.Core.Container.Calls.{Within, Keeps, Step-Keeps, Keeps-trans, Within-Keeps, resolves}
use nexusts.Core.Container.Identity.{resolve-busy, resolve-new, memoised-set_self}

resolve_new-in_request :
    (res : Resolver) (t : String) (r : ProviderRecord) (w : World) (cache : JsMap Value)
    → JsMap.get t w.this.providers ≡ some r
    → r.scope ≡ request
    → w.request_cache ≡ some cache
    → resolve_new res (JsMap.get t w.this.providers) t w
      ≡ cached_in_request res r t (memoised t cache) w
unfolding resolve_new resolve_in_request
resolve_new-in_request res t r w cache e s c = rw (e, s, c) refl

-- A token that the container holds for requests and has no instance of: the first part of a call.
module _ (t : String) (w : World) (r : ProviderRecord) (cache : JsMap Value)
    (found : JsMap.get t w.this.providers ≡ some r) (scoped : r.scope ≡ request)
    (active : w.request_cache ≡ some cache) (unshared : memoised t w.this.singletons ≡ none) where
  pub resolve-in_request :
      (n : ℕ)
      → JsSet.has t w.this.resolving ≡ false
      → resolve (suc n) t w ≡ cached_in_request (resolve n) r t (memoised t cache) w
  resolve-in_request n idle =
      resolve-new n t w idle unshared
      ∙ resolve_new-in_request (resolve n) t r w cache found scoped active

cached-map_option :
    (t : String) (v : Value) (o : Option (JsMap Value))
    → v ≢ undefined
    → is_some o ≡ true
    → in_request t (JsMap.map_option (JsMap.set t v) o) ≡ some v
cached-map_option t v none ne h = absurd (cc)
cached-map_option t v (some m) ne h = memoised-set_self t v m ne

store_in_request-caches :
    (t : String) (w : World) (o : Outcome Value) (a : Value) (u : World)
    → a ≢ undefined
    → is_some w.request_cache ≡ true
    → After (Unit {0}) (WorldGrows w) o
    → store_in_request t o ≡ returned a u
    → in_request t u.request_cache ≡ some a
store_in_request-caches t w (returned v x) a u ne active g e =
    let p : v ≡ a = cc in
    let q : cache_in_request t v x ≡ u = cc in
    subst (λ (y : World). in_request t y.request_cache ≡ some a) q
      (cached-map_option t v x.request_cache (λ f. ne (sym p ∙ f)) (g.active ∙ active) ∙ ap some p)
store_in_request-caches t w (thrown x v) a u ne active g e = absurd (cc)
store_in_request-caches t w out_of_fuel a u ne active g e = absurd (cc)

cached_in_request-caches :
    (n : ℕ) (r : ProviderRecord) (t : String) (found : Option Value) (w : World) (a : Value)
    (u : World)
    → a ≢ undefined
    → is_some w.request_cache ≡ true
    → in_request t w.request_cache ≡ found
    → cached_in_request (resolve n) r t found w ≡ returned a u
    → in_request t u.request_cache ≡ some a
unfolding cached_in_request
cached_in_request-caches n r t (some v) w a u ne active f e =
    let p : v ≡ a = cc in
    let q : w ≡ u = cc in
    subst (λ (y : World). in_request t y.request_cache ≡ some a) q (f ∙ ap some p)
cached_in_request-caches n r t none w a u ne active f e =
    store_in_request-caches t w (instantiate (resolve n) r.provider w) a u ne active
      (instantiate-IsGrowing (λ w. Unit {0}) (Unit {0}) (λ v u g p. tt) (resolve n)
        (resolve-IsGrowing n) r.provider w tt)
      e

resolve-caches :
    (n : ℕ) (t : String) (a : Value) (w u : World) (r : ProviderRecord) (cache : JsMap Value)
    → JsMap.get t w.this.providers ≡ some r
    → r.scope ≡ request
    → w.request_cache ≡ some cache
    → memoised t w.this.singletons ≡ none
    → a ≢ undefined
    → resolve n t w ≡ returned a u
    → in_request t u.request_cache ≡ some a
unfolding resolve
resolve-caches zero t a w u r cache e s c m ne h = absurd (cc)
resolve-caches (suc n) t a w u r cache e s c m ne h =
    elim (Bool-cases (JsSet.has t w.this.resolving)) [
      | inl busy ↦ absurd (cc (sym (resolve-busy n t w busy) ∙ h))
      | inr idle ↦
          cached_in_request-caches n r t (memoised t cache) w a u ne (ap is_some c)
            (ap (in_request t) c) (sym (resolve-in_request t w r cache e s c m n idle) ∙ h)
    ]

active_cache :
    (t : String) (a : Value) (o : Option (JsMap Value))
    → in_request t o ≡ some a
    → (cache : JsMap Value) × (o ≡ some cache) × (memoised t cache ≡ some a)
active_cache t a none h = absurd (cc)
active_cache t a (some cache) h = (cache, refl, h)

cached_in_request-found :
    (res : Resolver) (r : ProviderRecord) (t : String) (a b : Value) (x y : World)
    (found : Option Value)
    → found ≡ some a
    → cached_in_request res r t found x ≡ returned b y
    → (b ≡ a) × (y ≡ x)
unfolding cached_in_request
cached_in_request-found res r t a b x y none f h = absurd (cc)
cached_in_request-found res r t a b x y (some v) f h = (cc, cc)

resolve-cached :
    (m : ℕ) (t : String) (a b : Value) (x y : World) (r : ProviderRecord)
    → JsMap.get t x.this.providers ≡ some r
    → r.scope ≡ request
    → memoised t x.this.singletons ≡ none
    → in_request t x.request_cache ≡ some a
    → resolve m t x ≡ returned b y
    → (b ≡ a) × (y ≡ x)
unfolding resolve
resolve-cached zero t a b x y r e s n c h = absurd (cc)
resolve-cached (suc m) t a b x y r e s n c h = elim (Bool-cases (JsSet.has t x.this.resolving)) [
  | inl busy ↦ absurd (cc (sym (resolve-busy m t x busy) ∙ h))
  | inr idle ↦
      let (cache, active, found) = active_cache t a x.request_cache c in
      cached_in_request-found (resolve m) r t a b x y (memoised t cache) found
        (sym (resolve-in_request t x r cache e s active n m idle) ∙ h)
]

-- While one request is active, a token that the container holds with scope `request` and has no
-- singleton of gives one instance: once a call has returned it, every later call of the request
-- that returns gives the same and changes nothing, whatever was resolved, registered or thrown in
-- between. The instance must not be `undefined`.
pub Within-same_instance :
    (n m : ℕ) (t : String) (a b : Value) (w u x y : World) (r : ProviderRecord)
    (cache : JsMap Value)
    → JsMap.get t w.this.providers ≡ some r
    → r.scope ≡ request
    → w.request_cache ≡ some cache
    → memoised t w.this.singletons ≡ none
    → a ≢ undefined
    → resolve n t w ≡ returned a u
    → Within u x
    → resolve m t x ≡ returned b y
    → (b ≡ a) × (y ≡ x)
unfolding is_singleton
Within-same_instance n m t a b w u x y r cache e s c fresh ne first within again =
    let k : Keeps w x = Keeps-trans (Step-Keeps (resolves n t a first)) (Within-Keeps within) in
    resolve-cached m t a b x y r (k.known t r e) s (k.unshared t r e (ap is_singleton s) ∙ fresh)
      ((Within-Keeps within).cached t a (resolve-caches n t a w u r cache e s c fresh ne first))
      again
