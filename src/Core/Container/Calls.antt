-- ===== src/Core/Container/Calls.antt =====
-- packages/core/src/di/container.ts: what any call on a container keeps.
use nexusts.Prelude.{
  ℕ, ◌≡◌, refl, ap, subst, ◌∙◌, false, none, some, List, [], ◌∷◌, String, arith, Bool-cases, inl,
  inr,
}
use nexusts.Prelude.JsMap
use nexusts.Prelude.JsMap.{JsMap}
use nexusts.Core.Provider.{Value, Provider, ProviderRecord, normalize_provider}
use nexusts.Core.World.{
  Container, Object, World, Error, Outcome, returned, thrown, out_of_fuel, ◌>>=◌,
}
use nexusts.Core.Container.{memoised, resolve, register_one, register, is_singleton}
use nexusts.Core.Container.Growth.{WorldGrows, After, in_request}
use nexusts.Core.Container.Resolution.{resolve-IsGrowing}

-- The calls on the container, whether they return or throw; other containers may do as they like.
pub data Step : World → World → Type 0 where
  resolves :
      {w u : World} (n : ℕ) (t : String) (v : Value) → resolve n t w ≡ returned v u → Step w u
  fails : {w u : World} (n : ℕ) (t : String) (e : Error) → resolve n t w ≡ thrown e u → Step w u
  registers : {w u : World} (ps : List Provider) → register ps w ≡ returned tt u → Step w u
  refuses : {w u : World} (ps : List Provider) (e : Error) → register ps w ≡ thrown e u → Step w u
  others :
      (w : World) (ps : List Container) (os : List Object)
      → Step w (record w { parents = ps; objects = os })

-- Steps of one request.
pub data Within (w : World) : World → Type 0 where
  here : Within w w
  next : {u v : World} → Within w u → Step u v → Within w v

-- Steps and the borders of requests.
pub data Reach (w : World) : World → Type 0 where
  here : Reach w w
  next : {u v : World} → Reach w u → Step u v → Reach w v
  begins : {u : World} → Reach w u → Reach w (record u { request_cache = some [] })
  ends : {u : World} → Reach w u → Reach w (record u { request_cache = none })

-- What a step keeps.
pub record Keeps (w u : World) : Type 0 where
  pub instances :
      (t : String) (v : Value)
      → memoised t w.this.singletons ≡ some v
      → memoised t u.this.singletons ≡ some v
  pub cached :
      (t : String) (v : Value)
      → in_request t w.request_cache ≡ some v
      → in_request t u.request_cache ≡ some v
  pub known :
      (t : String) (r : ProviderRecord)
      → JsMap.get t w.this.providers ≡ some r
      → JsMap.get t u.this.providers ≡ some r
  pub unshared :
      (t : String) (r : ProviderRecord)
      → JsMap.get t w.this.providers ≡ some r
      → is_singleton r.scope ≡ false
      → memoised t u.this.singletons ≡ memoised t w.this.singletons

Keeps-refl : (w : World) → Keeps w w
Keeps-refl w = record {
  instances = λ t v e. e;
  cached = λ t v e. e;
  known = λ t r e. e;
  unshared = λ t r e f. refl;
}

pub Keeps-trans : {u v w : World} → Keeps u v → Keeps v w → Keeps u w
Keeps-trans g h = record {
  instances = λ t x e. h.instances t x (g.instances t x e);
  cached = λ t x e. h.cached t x (g.cached t x e);
  known = λ t r e. h.known t r (g.known t r e);
  unshared = λ t r e f. h.unshared t r (g.known t r e) f ∙ g.unshared t r e f;
}

WorldGrows-Keeps : {w u : World} → WorldGrows w u → Keeps w u
WorldGrows-Keeps g = record {
  instances = g.this.kept;
  cached = g.cached;
  known = λ t r e. ap (JsMap.get t) g.this.providers ∙ e;
  unshared = g.this.unshared;
}

-- A new record does not hide one that is there.
set_known :
    (k t : String) (r x : ProviderRecord) (m : JsMap ProviderRecord)
    → JsMap.has k m ≡ false
    → JsMap.get t m ≡ some r
    → JsMap.get t (JsMap.set k x m) ≡ some r
set_known k t r x m new e =
    JsMap.get-set_ne k t x m (λ p. ground (arith, ap (λ (j : String). JsMap.get j m) p, e, new)) ∙ e

register_one-Keeps : (p : Provider) (w : World) → After (Unit {0}) (Keeps w) (register_one p w)
unfolding register_one
register_one-Keeps p w =
    elim (Bool-cases (JsMap.has (normalize_provider p).token w.this.providers)) [
      | inl e ↦ rw e (Keeps-refl w)
      | inr e ↦ rw e (record {
        instances = λ t v h. h;
        cached = λ t v h. h;
        known = λ t r h.
            set_known (normalize_provider p).token t r (normalize_provider p) w.this.providers e h;
        unshared = λ t r h f. refl;
      })
    ]

Keeps-After :
    (ps : List Provider) (w : World) (o : Outcome (Unit {0}))
    → After (Unit {0}) (Keeps w) o
    → ((u : World) → After (Unit {0}) (Keeps u) (register ps u))
    → After (Unit {0}) (Keeps w) (◌>>=◌ (λ _. o) (λ _. register ps) w)
Keeps-After ps w (returned a v) h k = extended v (register ps v) h (k v)
  where
    extended :
        {w : World} (v : World) (o : Outcome (Unit {0}))
        → Keeps w v
        → After (Unit {0}) (Keeps v) o
        → After (Unit {0}) (Keeps w) o
    extended v (returned a u) g h = Keeps-trans g h
    extended v (thrown e u) g h = Keeps-trans g h
    extended v out_of_fuel g h = tt
Keeps-After ps w (thrown e v) h k = h
Keeps-After ps w out_of_fuel h k = tt

register-Keeps : (ps : List Provider) (w : World) → After (Unit {0}) (Keeps w) (register ps w)
unfolding register
register-Keeps [] w = Keeps-refl w
register-Keeps (p ∷ ps) w =
    Keeps-After ps w (register_one p w) (register_one-Keeps p w) (register-Keeps ps)

pub Step-Keeps : {w u : World} → Step w u → Keeps w u
Step-Keeps {w} (resolves n t v e) =
    WorldGrows-Keeps (subst (After (Unit {0}) (WorldGrows w)) e (resolve-IsGrowing n t w tt))
Step-Keeps {w} (fails n t x e) =
    WorldGrows-Keeps (subst (After (Unit {0}) (WorldGrows w)) e (resolve-IsGrowing n t w tt))
Step-Keeps {w} (registers ps e) = subst (After (Unit {0}) (Keeps w)) e (register-Keeps ps w)
Step-Keeps {w} (refuses ps x e) = subst (After (Unit {0}) (Keeps w)) e (register-Keeps ps w)
Step-Keeps (others w ps os) = record {
  instances = λ t v h. h;
  cached = λ t v h. h;
  known = λ t r h. h;
  unshared = λ t r h f. refl;
}

pub Within-Keeps : {w u : World} → Within w u → Keeps w u
Within-Keeps {w} here = Keeps-refl w
Within-Keeps (next r s) = Keeps-trans (Within-Keeps r) (Step-Keeps s)

pub Reach-instances :
    {w u : World} (t : String) (v : Value)
    → Reach w u
    → memoised t w.this.singletons ≡ some v
    → memoised t u.this.singletons ≡ some v
Reach-instances t v here h = h
Reach-instances t v (next r s) h = (Step-Keeps s).instances t v (Reach-instances t v r h)
Reach-instances t v (begins r) h = Reach-instances t v r h
Reach-instances t v (ends r) h = Reach-instances t v r h
