-- ===== src/Core/Container/Termination.antt =====
-- packages/core/src/di/container.ts: outside a request every resolution ends.
use nexusts.Prelude.{
  ℕ, zero, suc, ◌+◌, ◌≤◌, ◌<◌, ◌≡◌, ◌≢◌, refl, ap, ◌∙◌, true, false, none, List, [], ◌∷◌, String,
  eq_iff, arith, is_some, Bool-cases, Option-cases, inl, inr, if◌then◌else◌,
}
use nexusts.Prelude.JsMap
use nexusts.Prelude.JsMap.{JsMap}
use nexusts.Prelude.JsSet
use nexusts.Prelude.JsSet.{JsSet}
use nexusts.Core.Provider.{Value, ProviderRecord}
use nexusts.Core.World.{Container, World, Outcome, returned, thrown, out_of_fuel}
use nexusts.Core.Container.{memoised, resolve}
use nexusts.Core.Container.Growth.{WorldGrows, WorldGrows-refl, ChainGrows, After, IsGrowing}
use nexusts.Core.Container.Resolution.{resolve_new-After}

-- The providers of a container that are not in progress.
abbrev pub open_providers : JsMap ProviderRecord → JsSet → ℕ
open_providers [] s = 0
open_providers ((t, r) ∷ m) s =
    if JsSet.has t s then open_providers m s else suc (open_providers m s)

abbrev pub chain_depth : List Container → ℕ
chain_depth [] = 0
chain_depth (c ∷ cs) = suc (open_providers c.providers c.resolving + chain_depth cs)

-- How deep the resolutions can nest that start in the world.
abbrev pub depth : World → ℕ
depth w = chain_depth (w.this ∷ w.parents)

open_providers-add-le :
    (t : String) (m : JsMap ProviderRecord) (s : JsSet)
    → open_providers m (JsSet.add t s) ≤ open_providers m s
open_providers-add-le t [] s = omega arith
open_providers-add-le t ((k, r) ∷ m) s =
    ground (arith, open_providers-add-le t m s, JsSet.has-add t k s)

open_providers-add-lt :
    (t : String) (m : JsMap ProviderRecord) (s : JsSet)
    → JsMap.has t m ≡ true
    → JsSet.has t s ≡ false
    → open_providers m (JsSet.add t s) < open_providers m s
open_providers-add-lt t [] s h new = absurd (cc)
open_providers-add-lt t ((k, r) ∷ m) s h new = ground (
  arith,
  open_providers-add-le t m s,
  open_providers-add-lt t m s,
  JsSet.has-add t k s,
  eq_iff k t,
  eq_iff t k,
)

chain_depth-same : (cs ds : List Container) → ChainGrows cs ds → chain_depth ds ≡ chain_depth cs
chain_depth-same [] [] g = refl
chain_depth-same [] (d ∷ ds) g = absurd g
chain_depth-same (c ∷ cs) [] g = absurd g
chain_depth-same (c ∷ cs) (d ∷ ds) (g, gs) =
    rw (g.providers, g.resolving, chain_depth-same cs ds gs) refl

-- Enough fuel, and no request.
abbrev pub Fueled : ℕ → World → Type 0
Fueled n w = (depth w ≤ n) × (is_some w.request_cache ≡ false)

Fueled-stays : (n : ℕ) (v w : World) → WorldGrows v w → Fueled n v → Fueled n w
Fueled-stays n v w g (d, idle) = (
  omega (arith, chain_depth-same (v.this ∷ v.parents) (w.this ∷ w.parents) (g.this, g.parents)),
  g.active ∙ idle,
)

resolve_ends : (n : ℕ) (token : String) → IsGrowing (Fueled n) ⊥ (resolve n token)
unfolding resolve
resolve_ends zero token w pre = absurd (omega arith)
resolve_ends (suc n) token w pre = elim (Bool-cases (JsSet.has token w.this.resolving)) [
  | inl busy ↦ rw busy (WorldGrows-refl w)
  | inr idle ↦ elim (Option-cases (memoised token w.this.singletons)) [
    | inl new ↦
        rw (idle, new)
          (resolve_new-After (Fueled n) ⊥ (Fueled-stays n) (resolve n) (resolve_ends n) token w idle
            new
            (λ h. (
              omega (arith, open_providers-add-lt token w.this.providers w.this.resolving h idle),
              pre.1,
            ))
            (λ h. absurd (ground arith)) (λ p ps e. (omega (arith, ap chain_depth e), pre.1))
            (JsMap.get token w.this.providers) refl)
    | inr (v, e) ↦ rw (idle, e) (WorldGrows-refl w)
  ]
]

ended : (o : Outcome Value) (P : World → Type 0) → After ⊥ P o → o ≢ out_of_fuel
ended (returned v w) P h e = cc
ended (thrown x w) P h e = cc
ended out_of_fuel P h e = h

-- Outside a request `resolve` returns or throws whatever is registered, cycles included: its
-- recursion is never deeper than the providers that are not in progress and the containers of the
-- chain together.
pub resolve_total :
    (n : ℕ) (token : String) (w : World)
    → w.request_cache ≡ none
    → depth w ≤ n
    → resolve n token w ≢ out_of_fuel
resolve_total n token w idle d =
    ended (resolve n token w) (WorldGrows w) (resolve_ends n token w (d, ap is_some idle))
