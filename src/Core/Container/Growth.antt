-- ===== src/Core/Container/Growth.antt =====
-- packages/core/src/di/container.ts: what every resolution leaves as it was, whether it returns or
-- throws.
use nexusts.Prelude.{
  ℕ, zero, suc, ◌≤◌, ◌≡◌, refl, ap, ◌∙◌, true, false, Option, none, some, List, [], ◌∷◌, ◌++◌,
  String, arith, length, length-append, is_some, Bool-cases, inl, inr,
}
use nexusts.Prelude.JsMap
use nexusts.Prelude.JsMap.{JsMap}
use nexusts.Prelude.JsSet
use nexusts.Prelude.JsSet.{JsSet}
use nexusts.Core.Provider.{Value, object, plain, undefined, ProviderRecord, ClassRef}
use nexusts.Core.World.{Container, Object, World, Outcome, returned, thrown, out_of_fuel, M, ◌>>=◌}
use nexusts.Core.Instantiate.{or_undefined, construct, set_field, write_field}
use nexusts.Core.Container.{memoised, is_singleton}

-- `kept`: no instance is replaced. `held`: nothing is stored for a token in progress. `unshared`:
-- nothing is stored for a provider of another scope.
pub record Grows (c d : Container) : Type 0 where
  pub providers : d.providers ≡ c.providers
  pub resolving : d.resolving ≡ c.resolving
  pub kept :
      (t : String) (v : Value) → memoised t c.singletons ≡ some v → memoised t d.singletons ≡ some v
  pub held :
      (t : String)
      → JsSet.has t c.resolving ≡ true
      → memoised t d.singletons ≡ memoised t c.singletons
  pub unshared :
      (t : String) (r : ProviderRecord)
      → JsMap.get t c.providers ≡ some r
      → is_singleton r.scope ≡ false
      → memoised t d.singletons ≡ memoised t c.singletons

-- What the active request's container gives for the token.
abbrev pub in_request : String → Option (JsMap Value) → Option Value
in_request t none = none
in_request t (some cache) = memoised t cache

abbrev pub ChainGrows : List Container → List Container → Type 0
ChainGrows [] [] = Unit
ChainGrows [] (d ∷ ds) = ⊥
ChainGrows (c ∷ cs) [] = ⊥
ChainGrows (c ∷ cs) (d ∷ ds) = Grows c d × ChainGrows cs ds

pub record WorldGrows (v w : World) : Type 0 where
  pub this : Grows v.this w.this
  pub parents : ChainGrows v.parents w.parents
  pub active : is_some w.request_cache ≡ is_some v.request_cache
  pub cached :
      (t : String) (x : Value)
      → in_request t v.request_cache ≡ some x
      → in_request t w.request_cache ≡ some x
  pub allocated : length v.objects ≤ length w.objects

pub Grows-refl : (c : Container) → Grows c c
Grows-refl c = record {
  providers = refl;
  resolving = refl;
  kept = λ t v e. e;
  held = λ t h. refl;
  unshared = λ t r e f. refl;
}

pub Grows-trans : {c d e : Container} → Grows c d → Grows d e → Grows c e
Grows-trans g h = record {
  providers = h.providers ∙ g.providers;
  resolving = h.resolving ∙ g.resolving;
  kept = λ t v m. h.kept t v (g.kept t v m);
  held = λ t m. h.held t (ap (JsSet.has t) g.resolving ∙ m) ∙ g.held t m;
  unshared = λ t r e f. h.unshared t r (ap (JsMap.get t) g.providers ∙ e) f ∙ g.unshared t r e f;
}

pub ChainGrows-refl : (cs : List Container) → ChainGrows cs cs
ChainGrows-refl [] = tt
ChainGrows-refl (c ∷ cs) = (Grows-refl c, ChainGrows-refl cs)

ChainGrows-trans :
    (cs ds es : List Container) → ChainGrows cs ds → ChainGrows ds es → ChainGrows cs es
ChainGrows-trans [] [] es g h = h
ChainGrows-trans [] (d ∷ ds) es g h = absurd g
ChainGrows-trans (c ∷ cs) [] es g h = absurd g
ChainGrows-trans (c ∷ cs) (d ∷ ds) [] g h = absurd h
ChainGrows-trans (c ∷ cs) (d ∷ ds) (e ∷ es) (g, gs) (h, hs) =
    (Grows-trans g h, ChainGrows-trans cs ds es gs hs)

pub WorldGrows-refl : (w : World) → WorldGrows w w
WorldGrows-refl w = record {
  this = Grows-refl w.this;
  parents = ChainGrows-refl w.parents;
  active = refl;
  cached = λ t x e. e;
  allocated = omega arith;
}

pub WorldGrows-trans : {u v w : World} → WorldGrows u v → WorldGrows v w → WorldGrows u w
WorldGrows-trans {u} {v} {w} g h = record {
  this = Grows-trans g.this h.this;
  parents = ChainGrows-trans u.parents v.parents w.parents g.parents h.parents;
  active = h.active ∙ g.active;
  cached = λ t x e. h.cached t x (g.cached t x e);
  allocated = omega (arith, g.allocated, h.allocated);
}

-- What holds of the world that is left, however the code ends; `Stuck` is what is claimed of code
-- that runs out of fuel.
abbrev pub After : {A : Type 0} → Type 0 → (World → Type 0) → Outcome A → Type 0
After Stuck P (returned a w) = P w
After Stuck P (thrown e w) = P w
After Stuck P out_of_fuel = Stuck

-- From a world that meets the precondition.
abbrev pub IsGrowing : {A : Type 0} → (World → Type 0) → Type 0 → M A → Type 0
IsGrowing Pre Stuck m = (w : World) → Pre w → After Stuck (WorldGrows w) (m w)

module _ (Stuck : Type 0) where
  After-trans :
      {A : Type 0} (v w : World) (o : Outcome A)
      → WorldGrows v w
      → After Stuck (WorldGrows w) o
      → After Stuck (WorldGrows v) o
  After-trans v w (returned a u) g h = WorldGrows-trans g h
  After-trans v w (thrown e u) g h = WorldGrows-trans g h
  After-trans v w out_of_fuel g h = h

  pub or_undefined-After :
      (w : World) (o : Outcome Value)
      → After Stuck (WorldGrows w) o
      → After Stuck (WorldGrows w) (or_undefined o)
  or_undefined-After w (returned v u) h = h
  or_undefined-After w (thrown e u) h = h
  or_undefined-After w out_of_fuel h = h

module _ (Pre : World → Type 0) (Stuck : Type 0)
    (stays : (v w : World) → WorldGrows v w → Pre v → Pre w) where
  bind-After :
      {A B : Type 0} (w : World) (o : Outcome A) (f : A → M B)
      → Pre w
      → After Stuck (WorldGrows w) o
      → ((a : A) → IsGrowing Pre Stuck (f a))
      → After Stuck (WorldGrows w) (◌>>=◌ (λ _. o) f w)
  bind-After w (returned a v) f pre h k = After-trans Stuck w v (f a v) h (k a v (stays w v h pre))
  bind-After w (thrown e v) f pre h k = h
  bind-After w out_of_fuel f pre h k = h

  pub >>=-IsGrowing :
      {A B : Type 0} (m : M A) (f : A → M B)
      → IsGrowing Pre Stuck m
      → ((a : A) → IsGrowing Pre Stuck (f a))
      → IsGrowing Pre Stuck (m >>= f)
  >>=-IsGrowing m f h k w pre = bind-After w (m w) f pre (h w pre) k

pub length-set_field :
    (id : ℕ) (name : String) (v : Value) (os : List Object)
    → length (set_field id name v os) ≡ length os
unfolding set_field
length-set_field id name v [] = refl
length-set_field zero name v (o ∷ os) = refl
length-set_field (suc id) name v (o ∷ os) = ap suc (length-set_field id name v os)

-- A change of the objects only.
pub objects_grow :
    (w : World) (os : List Object)
    → length w.objects ≤ length os
    → WorldGrows w (record w { objects = os })
objects_grow w os le = record {
  this = Grows-refl w.this;
  parents = ChainGrows-refl w.parents;
  active = refl;
  cached = λ t x e. e;
  allocated = le;
}

pub construct-grows :
    (cls : ClassRef) (params : List Value) (Stuck : Type 0) (w : World)
    → After Stuck (WorldGrows w) (construct cls params w)
unfolding construct
construct-grows cls params Stuck w = elim (Bool-cases (cls.constructs params)) [
  | inl e ↦ rw e (
      objects_grow w
        (w.objects ++ record { class_token = cls.token; params = params; fields = [] } ∷ [])
        (omega (arith, length-append {0})))
  | inr e ↦ rw e (WorldGrows-refl w)
]

pub write_field-grows :
    (instance : Value) (name : String) (v : Value) (Stuck : Type 0) (w : World)
    → After Stuck (WorldGrows w) (write_field instance name v w)
unfolding write_field
write_field-grows (object id) name v Stuck w =
    objects_grow w (set_field id name v w.objects)
      (omega (arith, length-set_field id name v w.objects))
write_field-grows (plain n) name v Stuck w = WorldGrows-refl w
write_field-grows undefined name v Stuck w = WorldGrows-refl w
