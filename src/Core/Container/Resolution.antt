-- ===== src/Core/Container/Resolution.antt =====
-- packages/core/src/di/container.ts: every resolution grows the containers.
use nexusts.Prelude.{
  ℕ, zero, suc, ◌≡◌, refl, ap, Bool, true, false, Option, none, some, List, [], ◌∷◌, String,
  is_some, Bool-cases, Option-cases, inl, inr,
}
use nexusts.Prelude.JsMap
use nexusts.Prelude.JsMap.{JsMap}
use nexusts.Prelude.JsSet
use nexusts.Prelude.JsSet.{JsSet}
use nexusts.Core.Provider.{Value, ProviderRecord}
use nexusts.Core.World.{Container, World, Resolver}
use nexusts.Core.Instantiate.{instantiate}
use nexusts.Core.Container.{
  memoised, resolve_here, resolve_in_request, cached_in_request, resolve_in_parent, resolve_new,
  resolve, begin_resolving, is_singleton, is_request, resolve_scoped,
}
use nexusts.Core.Container.Growth.{in_request, WorldGrows, WorldGrows-refl, After, IsGrowing}
use nexusts.Core.Container.Instances.{instantiate-IsGrowing}
use nexusts.Core.Container.Endings.{finally_end-After, store_in_request-After, from_parent-After}

module _ (Pre : World → Type 0) (Stuck : Type 0)
    (stays : (v w : World) → WorldGrows v w → Pre v → Pre w) (res : Resolver)
    (growing : (t : String) → IsGrowing Pre Stuck (res t)) where
  resolve_here-After :
      (r : ProviderRecord) (token : String) (w : World)
      → JsSet.has token w.this.resolving ≡ false
      → memoised token w.this.singletons ≡ none
      → JsMap.get token w.this.providers ≡ some r
      → Pre (begin_resolving token w)
      → After Stuck (WorldGrows w) (resolve_here res r token w)
  unfolding resolve_here
  resolve_here-After r token w idle new e pre =
      finally_end-After Stuck token w idle new r (is_singleton r.scope)
        (instantiate res r.provider (begin_resolving token w)) e refl
        (instantiate-IsGrowing Pre Stuck stays res growing r.provider (begin_resolving token w) pre)

  cached_in_request-After :
      (r : ProviderRecord) (token : String) (found : Option Value) (w : World)
      → in_request token w.request_cache ≡ found
      → Pre w
      → After Stuck (WorldGrows w) (cached_in_request res r token found w)
  unfolding cached_in_request
  cached_in_request-After r token (some v) w e pre = WorldGrows-refl w
  cached_in_request-After r token none w e pre =
      store_in_request-After Stuck token w (instantiate res r.provider w) e
        (instantiate-IsGrowing Pre Stuck stays res growing r.provider w pre)

  resolve_in_request-After :
      (r : ProviderRecord) (token : String) (cache : JsMap Value) (w : World)
      → w.request_cache ≡ some cache
      → Pre w
      → After Stuck (WorldGrows w) (resolve_in_request res r token cache w)
  unfolding resolve_in_request
  resolve_in_request-After r token cache w e pre =
      cached_in_request-After r token (memoised token cache) w (ap (in_request token) e) pre

  resolve_in_parent-After :
      (token : String) (ps : List Container) (w : World)
      → w.parents ≡ ps
      → ((p : Container) (qs : List Container)
          → ps ≡ p ∷ qs
          → Pre (record w { this = p; parents = qs }))
      → After Stuck (WorldGrows w) (resolve_in_parent res token ps w)
  unfolding resolve_in_parent
  resolve_in_parent-After token [] w e pre = WorldGrows-refl w
  resolve_in_parent-After token (p ∷ ps) w e pre =
      from_parent-After Stuck token w p ps (res token (record w { this = p; parents = ps })) e
        (growing token (record w { this = p; parents = ps }) (pre p ps refl))

  -- What the precondition has to give to the container itself, to the request and to the parent.
  module _ (token : String) (w : World) (idle : JsSet.has token w.this.resolving ≡ false)
      (new : memoised token w.this.singletons ≡ none)
      (pre_here : JsMap.has token w.this.providers ≡ true → Pre (begin_resolving token w))
      (pre_request : is_some w.request_cache ≡ true → Pre w)
      (pre_parent : (p : Container) (ps : List Container)
        → w.parents ≡ p ∷ ps
        → Pre (record w { this = p; parents = ps })) where
    resolve_scoped-After :
        (request : Bool) (cache : Option (JsMap Value)) (r : ProviderRecord)
        → JsMap.get token w.this.providers ≡ some r
        → w.request_cache ≡ cache
        → After Stuck (WorldGrows w) (resolve_scoped res request cache r token w)
    resolve_scoped-After true none r e f =
        resolve_here-After r token w idle new e (pre_here (ap is_some e))
    resolve_scoped-After true (some cache) r e f =
        resolve_in_request-After r token cache w f (pre_request (ap is_some f))
    resolve_scoped-After false cache r e f =
        resolve_here-After r token w idle new e (pre_here (ap is_some e))

    pub resolve_new-After :
        (found : Option ProviderRecord)
        → JsMap.get token w.this.providers ≡ found
        → After Stuck (WorldGrows w) (resolve_new res found token w)
    unfolding resolve_new
    resolve_new-After none e = resolve_in_parent-After token w.parents w refl pre_parent
    resolve_new-After (some r) e =
        resolve_scoped-After (is_request r.scope) w.request_cache r e refl

-- Whatever holds for the calls that a resolution makes holds for it: no precondition, and nothing
-- claimed of code that runs out of fuel.
pub resolve-IsGrowing :
    (n : ℕ) (token : String) → IsGrowing (λ w. Unit {0}) (Unit {0}) (resolve n token)
unfolding resolve
resolve-IsGrowing zero token w pre = tt
resolve-IsGrowing (suc n) token w pre = elim (Bool-cases (JsSet.has token w.this.resolving)) [
  | inl busy ↦ rw busy (WorldGrows-refl w)
  | inr idle ↦ elim (Option-cases (memoised token w.this.singletons)) [
    | inl new ↦
        rw (idle, new)
          (resolve_new-After (λ w. Unit {0}) (Unit {0}) (λ v u g p. tt) (resolve n)
            (resolve-IsGrowing n) token w idle new (λ h. tt) (λ h. tt) (λ p ps h. tt)
            (JsMap.get token w.this.providers) refl)
    | inr (v, e) ↦ rw (idle, e) (WorldGrows-refl w)
  ]
]
