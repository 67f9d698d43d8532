-- ===== src/Core/Container/Identity.antt =====
-- packages/core/src/di/container.ts: the identity of what is injected, over any sequence of calls.
use nexusts.Prelude.{
  ℕ, zero, suc, ◌≡◌, ◌≢◌, refl, sym, ap, subst, ◌∙◌, true, false, none, some, String, Bool-cases,
  Option-cases, inl, inr,
}
use nexusts.Prelude.JsMap
use nexusts.Prelude.JsMap.{JsMap}
use nexusts.Prelude.JsSet
use nexusts.Core.Provider.{Value, undefined, plain, object, singleton, ProviderRecord}
use nexusts.Core.World.{World, Outcome, returned, thrown, out_of_fuel, Resolver, circular}
use nexusts.Core.Instantiate.{instantiate}
use nexusts.Core.Container.{
  memoised, defined, resolve_here, resolve_new, resolve, finally_end, memoise, end_resolving,
  begin_resolving,
}
use nexusts.Core.Container.Calls.{Reach, Reach-instances}

pub memoised-set_self :
    (t : String) (v : Value) (m : JsMap Value)
    → v ≢ undefined
    → memoised t (JsMap.set t v m) ≡ some v
unfolding memoised
memoised-set_self t undefined m h = absurd (h refl)
memoised-set_self t (plain n) m h = ap defined (JsMap.get-set_self t (plain n) m)
memoised-set_self t (object id) m h = ap defined (JsMap.get-set_self t (object id) m)

finally_end-memoised :
    (t : String) (o : Outcome Value) (a : Value) (u : World)
    → a ≢ undefined
    → finally_end t true o ≡ returned a u
    → memoised t u.this.singletons ≡ some a
finally_end-memoised t (returned v w) a u ne e =
    let p : v ≡ a = cc in
    let q : end_resolving t (memoise t v w) ≡ u = cc in
    subst (λ (x : World). memoised t x.this.singletons ≡ some a) q
      (rw p (memoised-set_self t a w.this.singletons ne))
finally_end-memoised t (thrown x w) a u ne e = absurd (cc)
finally_end-memoised t out_of_fuel a u ne e = absurd (cc)

pub resolve-busy :
    (n : ℕ) (t : String) (w : World)
    → JsSet.has t w.this.resolving ≡ true
    → resolve (suc n) t w ≡ thrown (circular t w.this.resolving) w
unfolding resolve
resolve-busy n t w e = rw e refl

pub resolve-memoised :
    (n : ℕ) (t : String) (v : Value) (w : World)
    → JsSet.has t w.this.resolving ≡ false
    → memoised t w.this.singletons ≡ some v
    → resolve (suc n) t w ≡ returned v w
unfolding resolve
resolve-memoised n t v w idle e = rw (idle, e) refl

pub resolve-new :
    (n : ℕ) (t : String) (w : World)
    → JsSet.has t w.this.resolving ≡ false
    → memoised t w.this.singletons ≡ none
    → resolve (suc n) t w ≡ resolve_new (resolve n) (JsMap.get t w.this.providers) t w
unfolding resolve
resolve-new n t w idle e = rw (idle, e) refl

resolve_new-here :
    (res : Resolver) (t : String) (r : ProviderRecord) (w : World)
    → JsMap.get t w.this.providers ≡ some r
    → r.scope ≡ singleton
    → resolve_new res (JsMap.get t w.this.providers) t w
      ≡ finally_end t true (instantiate res r.provider (begin_resolving t w))
unfolding resolve_new resolve_here
resolve_new-here res t r w e s = rw (e, s) refl

-- A singleton that was returned is stored.
resolve-stores :
    (n : ℕ) (t : String) (a : Value) (w u : World) (r : ProviderRecord)
    → JsMap.get t w.this.providers ≡ some r
    → r.scope ≡ singleton
    → a ≢ undefined
    → resolve n t w ≡ returned a u
    → memoised t u.this.singletons ≡ some a
unfolding resolve
resolve-stores zero t a w u r e s ne h = absurd (cc)
resolve-stores (suc n) t a w u r e s ne h = elim (Bool-cases (JsSet.has t w.this.resolving)) [
  | inl busy ↦ absurd (cc (sym (resolve-busy n t w busy) ∙ h))
  | inr idle ↦ elim (Option-cases (memoised t w.this.singletons)) [
    | inl new ↦
        finally_end-memoised t (instantiate (resolve n) r.provider (begin_resolving t w)) a u ne
          (sym (resolve_new-here (resolve n) t r w e s) ∙ sym (resolve-new n t w idle new) ∙ h)
    | inr (v, m) ↦
        let p : returned v w ≡ returned a u = sym (resolve-memoised n t v w idle m) ∙ h in
        let q : v ≡ a = cc in
        let k : w ≡ u = cc in
        subst (λ (x : World). memoised t x.this.singletons ≡ some a) k (m ∙ ap some q)
  ]
]

resolve-stored :
    (m : ℕ) (t : String) (a b : Value) (x y : World)
    → memoised t x.this.singletons ≡ some a
    → resolve m t x ≡ returned b y
    → (b ≡ a) × (y ≡ x)
unfolding resolve
resolve-stored zero t a b x y e h = absurd (cc)
resolve-stored (suc m) t a b x y e h = elim (Bool-cases (JsSet.has t x.this.resolving)) [
  | inl busy ↦ absurd (cc (sym (resolve-busy m t x busy) ∙ h))
  | inr idle ↦
      let p : returned a x ≡ returned b y = sym (resolve-memoised m t a x idle e) ∙ h in (cc, cc)
]

-- Once the container has returned an instance for a token that it holds with scope `singleton`, it
-- returns the same instance and changes nothing on every later call that returns, whatever was
-- resolved, registered or thrown in between, and whatever requests have begun and ended. The
-- instance must not be `undefined`.
pub Reach-same_singleton :
    (n m : ℕ) (t : String) (a b : Value) (w u x y : World) (r : ProviderRecord)
    → JsMap.get t w.this.providers ≡ some r
    → r.scope ≡ singleton
    → a ≢ undefined
    → resolve n t w ≡ returned a u
    → Reach u x
    → resolve m t x ≡ returned b y
    → (b ≡ a) × (y ≡ x)
Reach-same_singleton n m t a b w u x y r e s ne first reach again =
    resolve-stored m t a b x y (Reach-instances t a reach (resolve-stores n t a w u r e s ne first))
      again
