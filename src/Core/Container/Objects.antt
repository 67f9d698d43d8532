-- ===== src/Core/Container/Objects.antt =====
-- packages/core/src/di/container.ts: which objects a class provider makes.
use nexusts.Prelude.{
  ℕ, zero, suc, ◌≤◌, ◌<◌, ◌≡◌, ◌≢◌, refl, sym, ap, subst, ◌∙◌, false, none, some, List, [], ◌∷◌,
  String, arith, Bool-cases, inl, inr, length, length-append,
}
use nexusts.Prelude.JsMap
use nexusts.Prelude.JsMap.{JsMap}
use nexusts.Prelude.JsSet
use nexusts.Core.Provider.{
  Value, plain, undefined, object, transient, ClassRef, class_provider, ProviderRecord,
  total_params,
}
use nexusts.Core.World.{World, Outcome, returned, thrown, out_of_fuel, M, ◌>>=◌, Resolver}
use nexusts.Core.Instantiate.{
  construct, set_field, write_field, inject_fields, inject_params, has_field_injections,
  inject_into_fields, inject_into_constructor, instantiate_class, instantiate,
}
use nexusts.Core.Container.{
  is_singleton, memoised, resolve_here, resolve_new, resolve, finally_end, begin_resolving,
}
use nexusts.Core.Container.Growth.{WorldGrows, After, IsGrowing, length-set_field}
use nexusts.Core.Container.Instances.{inject_params-IsGrowing}
use nexusts.Core.Container.Resolution.{resolve-IsGrowing}
use nexusts.Core.Container.Identity.{resolve-busy, resolve-new}

-- The object was made since there were `n` objects.
abbrev pub MadeSince : ℕ → Value → World → Type 0
MadeSince n (object id) u = (n ≤ id) × (id < length u.objects)
MadeSince n (plain k) u = ⊥
MadeSince n undefined u = ⊥

abbrev pub Makes : ℕ → Outcome Value → Type 0
Makes n (returned v u) = MadeSince n v u
Makes n (thrown e u) = Unit
Makes n out_of_fuel = Unit

construct-Makes :
    (n : ℕ) (cls : ClassRef) (params : List Value) (w : World)
    → n ≤ length w.objects
    → Makes n (construct cls params w)
unfolding construct
construct-Makes n cls params w le = elim (Bool-cases (cls.constructs params)) [
  | inl e ↦ rw e (le, omega (arith, length-append {0}))
  | inr e ↦ rw e tt
]

bind_Makes :
    {A : Type 0} (n : ℕ) (m : Outcome A) (f : A → M Value) (w : World)
    → ((a : A) (u : World) → m ≡ returned a u → Makes n (f a u))
    → Makes n (◌>>=◌ (λ _. m) f w)
bind_Makes n (returned a u) f w h = h a u refl
bind_Makes n (thrown e u) f w h = tt
bind_Makes n out_of_fuel f w h = tt

module _ (n : ℕ) (res : Resolver)
    (growing : (t : String) → IsGrowing (λ w. Unit {0}) (Unit {0}) (res t)) where
  inject_fields-Makes :
      (instance : Value) (fields : JsMap String) (w : World)
      → MadeSince n instance w
      → Makes n (inject_fields res instance fields w)
  unfolding inject_fields write_field
  inject_fields-Makes instance [] w h = h
  inject_fields-Makes (plain k) ((name, t) ∷ fields) w h = absurd h
  inject_fields-Makes undefined ((name, t) ∷ fields) w h = absurd h
  inject_fields-Makes (object id) ((name, t) ∷ fields) w h = bind_Makes n (res t w) _ w (λ v u e.
      let g : WorldGrows w u = subst (After (Unit {0}) (WorldGrows w)) e (growing t w tt) in
      inject_fields-Makes (object id) fields (record u { objects = set_field id name v u.objects })
        (h.0, omega (arith, h.1, g.allocated, length-set_field id name v u.objects)))

  instantiate_class-Makes :
      (cls : ClassRef) (w : World) → n ≤ length w.objects → Makes n (instantiate_class res cls w)
  unfolding instantiate_class inject_into_fields inject_into_constructor
  instantiate_class-Makes cls w le = elim (Bool-cases (has_field_injections cls.fields)) [
    | inl f ↦ rw f (
        bind_Makes n (construct cls [] w) _ w (λ v u e.
          inject_fields-Makes v cls.fields u (subst (Makes n) e (construct-Makes n cls [] w le))))
    | inr f ↦ rw f (
        bind_Makes n (inject_params res cls (total_params cls) 0 w) _ w (λ vs u e.
          let g : WorldGrows w u = subst (After (Unit {0}) (WorldGrows w)) e (
            inject_params-IsGrowing (λ v. Unit {0}) (Unit {0}) (λ v x h p. tt) res growing cls
              (total_params cls) 0 w tt) in
          construct-Makes n cls vs u (omega (arith, g.allocated))))
  ]

finally_end-Makes :
    (n : ℕ) (t : String) (o : Outcome Value) → Makes n o → Makes n (finally_end t false o)
finally_end-Makes n t (returned (object id) u) h = h
finally_end-Makes n t (returned (plain k) u) h = h
finally_end-Makes n t (returned undefined u) h = h
finally_end-Makes n t (thrown e u) h = tt
finally_end-Makes n t out_of_fuel h = tt

resolve_new-transient :
    (res : Resolver) (t : String) (r : ProviderRecord) (cls : ClassRef) (w : World)
    → JsMap.get t w.this.providers ≡ some r
    → r.scope ≡ transient
    → r.provider ≡ class_provider cls
    → resolve_new res (JsMap.get t w.this.providers) t w
      ≡ finally_end t false (instantiate_class res cls (begin_resolving t w))
unfolding resolve_new resolve_here instantiate
resolve_new-transient res t r cls w e s p = rw (e, s, p) refl

resolve-Makes :
    (n : ℕ) (t : String) (r : ProviderRecord) (cls : ClassRef) (w : World)
    → JsMap.get t w.this.providers ≡ some r
    → r.scope ≡ transient
    → r.provider ≡ class_provider cls
    → memoised t w.this.singletons ≡ none
    → Makes (length w.objects) (resolve n t w)
unfolding resolve
resolve-Makes zero t r cls w e s p new = tt
resolve-Makes (suc n) t r cls w e s p new = elim (Bool-cases (JsSet.has t w.this.resolving)) [
  | inl busy ↦ subst (Makes (length w.objects)) (sym (resolve-busy n t w busy)) tt
  | inr idle ↦
      subst (Makes (length w.objects))
        (sym (resolve-new n t w idle new ∙ resolve_new-transient (resolve n) t r cls w e s p))
        (finally_end-Makes (length w.objects) t
          (instantiate_class (resolve n) cls (begin_resolving t w))
          (instantiate_class-Makes (length w.objects) (resolve n) (resolve-IsGrowing n) cls
            (begin_resolving t w) (omega arith)))
]

MadeSince-ne :
    (n : ℕ) (a b : Value) (u y : World) → MadeSince n a u → MadeSince (length u.objects) b y → a ≢ b
MadeSince-ne n (plain k) b u y h k' e = absurd h
MadeSince-ne n undefined b u y h k e = absurd h
MadeSince-ne n (object i) (plain k) u y h k' e = absurd k'
MadeSince-ne n (object i) undefined u y h k e = absurd k
MadeSince-ne n (object i) (object j) u y h k e = ground (arith, e)

-- Two calls in a row for a class with the scope `transient` return two objects, and each is an
-- object that was not there before its call.
pub resolve-new_object :
    (n m : ℕ) (t : String) (r : ProviderRecord) (cls : ClassRef) (a b : Value) (w u y : World)
    → JsMap.get t w.this.providers ≡ some r
    → r.scope ≡ transient
    → r.provider ≡ class_provider cls
    → memoised t w.this.singletons ≡ none
    → resolve n t w ≡ returned a u
    → resolve m t u ≡ returned b y
    → MadeSince (length w.objects) a u × MadeSince (length u.objects) b y × (a ≢ b)
unfolding is_singleton
resolve-new_object n m t r cls a b w u y e s p new first again =
    let g : WorldGrows w u =
      subst (After (Unit {0}) (WorldGrows w)) first (resolve-IsGrowing n t w tt) in
    let made : MadeSince (length w.objects) a u =
      subst (Makes (length w.objects)) first (resolve-Makes n t r cls w e s p new) in
    let made' : MadeSince (length u.objects) b y = subst (Makes (length u.objects)) again (
      resolve-Makes m t r cls u (ap (JsMap.get t) g.this.providers ∙ e) s p
        (g.this.unshared t r e (ap is_singleton s) ∙ new)) in
    (made, made', MadeSince-ne (length w.objects) a b u y made made')
