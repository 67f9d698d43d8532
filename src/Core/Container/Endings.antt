-- ===== src/Core/Container/Endings.antt =====
-- packages/core/src/di/container.ts: what the ends of a resolution store and restore.
use nexusts.Prelude.{
  ◌≡◌, ◌≢◌, refl, sym, ap, subst, ◌∙◌, Bool, true, false, Option, none, some, List, ◌∷◌, String,
  str_eq, eq_iff, arith, is_some, Bool-cases, inl, inr,
}
use nexusts.Prelude.JsMap
use nexusts.Prelude.JsMap.{JsMap}
use nexusts.Prelude.JsSet
use nexusts.Prelude.JsSet.{JsSet}
use nexusts.Core.Provider.{Value, ProviderRecord}
use nexusts.Core.World.{Container, World, Outcome, returned, thrown, out_of_fuel}
use nexusts.Core.Container.{
  memoised, defined, finally_end, begin_resolving, end_resolving, memoise, is_singleton,
  from_parent, store_in_request,
}
use nexusts.Core.Container.Growth.{Grows, in_request, WorldGrows, After, Grows-refl}

memoised-set :
    (t u : String) (v : Value) (m : JsMap Value)
    → t ≢ u
    → memoised u (JsMap.set t v m) ≡ memoised u m
unfolding memoised
memoised-set t u v m ne = ap defined (JsMap.get-set_ne t u v m ne)

-- A token that is in progress or memoised is another than one that is neither.
other_token :
    (t u : String) (v : Value) (m : JsMap Value)
    → memoised t m ≡ none
    → memoised u m ≡ some v
    → t ≢ u
other_token t u v m h k e = cc

other_resolving : (t u : String) (s : JsSet) → JsSet.has t s ≡ false → JsSet.has u s ≡ true → t ≢ u
other_resolving t u s h k e = cc

is_some-map_option :
    (f : JsMap Value → JsMap Value) (o : Option (JsMap Value))
    → is_some (JsMap.map_option f o) ≡ is_some o
is_some-map_option f none = refl
is_some-map_option f (some m) = refl

module _ (token : String) (w v : World) (idle : JsSet.has token w.this.resolving ≡ false)
    (new : memoised token w.this.singletons ≡ none)
    (grows : WorldGrows (begin_resolving token w) v) where
  -- Whatever is stored for the token, the end of its resolution has grown the world.
  stored_Grows :
      (m : JsMap Value)
      → ((u : String) → token ≢ u → memoised u m ≡ memoised u v.this.singletons)
      → ((r : ProviderRecord)
          → JsMap.get token w.this.providers ≡ some r
          → is_singleton r.scope ≡ false
          → memoised token m ≡ memoised token v.this.singletons)
      → Grows w.this
          (record v.this { singletons = m; resolving = JsSet.remove token v.this.resolving })
  stored_Grows m same own = record {
    providers = grows.this.providers;
    resolving =
        ap (JsSet.remove token) grows.this.resolving ∙ JsSet.remove-add token w.this.resolving idle;
    kept = λ u x h. same u (other_token token u x w.this.singletons new h) ∙ grows.this.kept u x h;
    held = λ u h.
        same u (other_resolving token u w.this.resolving idle h)
        ∙ grows.this.held u (JsSet.has-add token u w.this.resolving ∙ ground (arith, h));
    unshared = λ u r e f. elim (Bool-cases (str_eq token u)) [
      | inl eq ↦
          let p : token ≡ u = (eq_iff token u).0 eq in
          subst (λ (k : String). memoised k m ≡ memoised k w.this.singletons) p
            (own r (ap (λ (k : String). JsMap.get k w.this.providers) p ∙ e) f
              ∙ grows.this.unshared token r
                  (ap (λ (k : String). JsMap.get k w.this.providers) p ∙ e) f)
      | inr ne ↦ same u (λ p. ground (arith, eq_iff token u, p, ne)) ∙ grows.this.unshared u r e f
    ];
  }

  unstored : WorldGrows w (end_resolving token v)
  unstored = record {
    this = stored_Grows v.this.singletons (λ u ne. refl) (λ r e f. refl);
    parents = grows.parents;
    active = grows.active;
    cached = grows.cached;
    allocated = grows.allocated;
  }

  stored :
      (x : Value)
      → ((r : ProviderRecord)
          → JsMap.get token w.this.providers ≡ some r
          → is_singleton r.scope ≡ true)
      → WorldGrows w (end_resolving token (memoise token x v))
  stored x single = record {
    this =
        stored_Grows (JsMap.set token x v.this.singletons)
          (λ u ne. memoised-set token u x v.this.singletons ne)
          (λ r e f. absurd (ground (arith, single r e, f)));
    parents = grows.parents;
    active = grows.active;
    cached = grows.cached;
    allocated = grows.allocated;
  }

abbrev singleton_or : Option ProviderRecord → Bool
singleton_or none = true
singleton_or (some r) = is_singleton r.scope

module _ (Stuck : Type 0) (token : String) (w : World)
    (idle : JsSet.has token w.this.resolving ≡ false)
    (new : memoised token w.this.singletons ≡ none) where
  pub finally_end-After :
      (r : ProviderRecord) (single : Bool) (o : Outcome Value)
      → JsMap.get token w.this.providers ≡ some r
      → is_singleton r.scope ≡ single
      → After Stuck (WorldGrows (begin_resolving token w)) o
      → After Stuck (WorldGrows w) (finally_end token single o)
  finally_end-After r true (returned x v) e f g =
      stored token w v idle new g x
        (λ q h. ap (λ (o : Option ProviderRecord). singleton_or o) (sym h ∙ e) ∙ f)
  finally_end-After r false (returned x v) e f g = unstored token w v idle new g
  finally_end-After r single (thrown x v) e f g = unstored token w v idle new g
  finally_end-After r single out_of_fuel e f g = g

in_request-map_option :
    (token u : String) (v x : Value) (cache : Option (JsMap Value))
    → token ≢ u
    → in_request u cache ≡ some v
    → in_request u (JsMap.map_option (JsMap.set token x) cache) ≡ some v
in_request-map_option token u v x none ne e = e
in_request-map_option token u v x (some m) ne e = memoised-set token u x m ne ∙ e

pub store_in_request-After :
    (Stuck : Type 0) (token : String) (w : World) (o : Outcome Value)
    → in_request token w.request_cache ≡ none
    → After Stuck (WorldGrows w) o
    → After Stuck (WorldGrows w) (store_in_request token o)
store_in_request-After Stuck token w (returned x v) new g = record {
  this = g.this;
  parents = g.parents;
  active = is_some-map_option (JsMap.set token x) v.request_cache ∙ g.active;
  cached = λ u y e.
      in_request-map_option token u y x v.request_cache
        (λ p. ground (arith, ap (λ (k : String). in_request k w.request_cache) p, new, e))
        (g.cached u y e);
  allocated = g.allocated;
}
store_in_request-After Stuck token w (thrown e v) new g = g
store_in_request-After Stuck token w out_of_fuel new g = g

pub from_parent-After :
    (Stuck : Type 0) (token : String) (w : World) (p : Container) (ps : List Container)
    (o : Outcome Value)
    → w.parents ≡ p ∷ ps
    → After Stuck (WorldGrows (record w { this = p; parents = ps })) o
    → After Stuck (WorldGrows w) (from_parent token w.this o)
from_parent-After Stuck token w p ps (returned x v) e g = record {
  this = Grows-refl w.this;
  parents = rw e (g.this, g.parents);
  active = g.active;
  cached = g.cached;
  allocated = g.allocated;
}
from_parent-After Stuck token w p ps (thrown x v) e g = record {
  this = Grows-refl w.this;
  parents = rw e (g.this, g.parents);
  active = g.active;
  cached = g.cached;
  allocated = g.allocated;
}
from_parent-After Stuck token w p ps out_of_fuel e g = g
