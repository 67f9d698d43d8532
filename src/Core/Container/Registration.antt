-- ===== src/Core/Container/Registration.antt =====
-- packages/core/src/di/container.ts: what `register` stores and when it refuses.
use nexusts.Prelude.{
  ◌≡◌, refl, sym, subst, ◌∙◌, Bool, true, false, not, ◌&&◌, Option, none, some, List, [], ◌∷◌,
  String, map, str_eq, eq_iff, arith, Bool-cases, inl, inr, if◌then◌else◌,
}
use nexusts.Prelude.JsMap
use nexusts.Prelude.JsMap.{JsMap}
use nexusts.Prelude.JsSet
use nexusts.Core.Provider.{Provider, ProviderRecord, normalize_provider}
use nexusts.Core.World.{World, Error, duplicate, Outcome, returned, thrown, out_of_fuel, ◌>>=◌}
use nexusts.Core.Container.{register_one, register}

abbrev pub token_of : Provider → String
token_of p = (normalize_provider p).token

-- The tokens are new to the container and differ from one another.
abbrev pub all_new : JsMap ProviderRecord → List String → Bool
all_new m [] = true
all_new m (t ∷ ts) = not (JsMap.has t m) && (not (JsSet.has t ts) && all_new m ts)

-- The record that a list of providers has for a token.
abbrev pub record_for : String → List Provider → Option ProviderRecord
record_for t [] = none
record_for t (p ∷ ps) =
    if str_eq (token_of p) t then some (normalize_provider p) else record_for t ps

abbrev pub or_stored : Option ProviderRecord → Option ProviderRecord → Option ProviderRecord
or_stored none stored = stored
or_stored (some r) stored = some r

-- The registration returned, and the container maps each token as the two arguments say.
abbrev pub Registered : World → List Provider → Bool → Outcome (Unit {0}) → Type 0
Registered w ps new (returned a u) =
    (new ≡ true)
    × ((t : String)
        → JsMap.get t u.this.providers ≡ or_stored (record_for t ps) (JsMap.get t w.this.providers))
Registered w ps new (thrown e u) = new ≡ false
Registered w ps new out_of_fuel = ⊥

abbrev extended : Provider → World → World
extended p w = record w {
  this = record w.this {
    providers = JsMap.set (token_of p) (normalize_provider p) w.this.providers;
  };
}

register_one-refuses :
    (p : Provider) (w : World)
    → JsMap.has (token_of p) w.this.providers ≡ true
    → (e : Error) × (register_one p w ≡ thrown e w)
unfolding register_one
register_one-refuses p w h = (duplicate (token_of p), rw h refl)

register_one-stores :
    (p : Provider) (w : World)
    → JsMap.has (token_of p) w.this.providers ≡ false
    → register_one p w ≡ returned tt (extended p w)
unfolding register_one
register_one-stores p w h = rw h refl

all_new-set :
    (k : String) (r : ProviderRecord) (m : JsMap ProviderRecord) (ts : List String)
    → all_new (JsMap.set k r m) ts ≡ (not (JsSet.has k ts) && all_new m ts)
all_new-set k r m [] = refl
all_new-set k r m (t ∷ ts) =
    ground (arith, all_new-set k r m ts, JsMap.get-set k t r m, eq_iff k t, eq_iff t k)

record_for-absent :
    (t : String) (ps : List Provider)
    → JsSet.has t (map token_of ps) ≡ false
    → record_for t ps ≡ none
record_for-absent t [] h = refl
record_for-absent t (p ∷ ps) h = ground (arith, record_for-absent t ps)

Registered-extended :
    (p : Provider) (ps : List Provider) (w : World) (o : Outcome (Unit {0}))
    → JsMap.has (token_of p) w.this.providers ≡ false
    → Registered (extended p w) ps (all_new (extended p w).this.providers (map token_of ps)) o
    → Registered w (p ∷ ps) (all_new w.this.providers (map token_of (p ∷ ps))) o
Registered-extended p ps w (returned a u) new (n, stored) =
    let fresh : (not (JsSet.has (token_of p) (map token_of ps))
          && all_new w.this.providers (map token_of ps))
        ≡ true =
      sym (all_new-set (token_of p) (normalize_provider p) w.this.providers (map token_of ps))
      ∙ n in
    (
      rw (new, fresh) refl,
      λ t. ground (
        arith,
        stored t,
        fresh,
        JsMap.get-set (token_of p) t (normalize_provider p) w.this.providers,
        eq_iff (token_of p) t,
        record_for-absent t ps,
      ),
    )
Registered-extended p ps w (thrown e u) new n =
    rw new
      (sym (all_new-set (token_of p) (normalize_provider p) w.this.providers (map token_of ps)) ∙ n)
Registered-extended p ps w out_of_fuel new n = n

-- A list of providers is registered exactly if its tokens are new to the container and differ from
-- one another. Then every token of the list has its record, and every other token the record that
-- it had; otherwise the call throws.
pub register-records :
    (ps : List Provider) (w : World)
    → Registered w ps (all_new w.this.providers (map token_of ps)) (register ps w)
unfolding register
register-records [] w = (refl, λ t. refl)
register-records (p ∷ ps) w = elim (Bool-cases (JsMap.has (token_of p) w.this.providers)) [
  | inl old ↦
      let (e, q) = register_one-refuses p w old in
      subst
        (λ (o : Outcome (Unit {0})).
          Registered w (p ∷ ps) (all_new w.this.providers (map token_of (p ∷ ps)))
            (◌>>=◌ (λ _. o) (λ _. register ps) w))
        (sym q) (rw old refl)
  | inr new ↦
      subst
        (λ (o : Outcome (Unit {0})).
          Registered w (p ∷ ps) (all_new w.this.providers (map token_of (p ∷ ps)))
            (◌>>=◌ (λ _. o) (λ _. register ps) w))
        (sym (register_one-stores p w new))
        (Registered-extended p ps w (register ps (extended p w)) new
          (register-records ps (extended p w)))
]
