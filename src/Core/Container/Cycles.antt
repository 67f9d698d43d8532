-- ===== src/Core/Container/Cycles.antt =====
-- packages/core/src/di/container.ts: cyclic dependencies between providers of a request, which are
-- instantiated without an entry in `resolving`.
use nexusts.Prelude.{
  ℕ, zero, suc, ◌≡◌, refl, ap, ◌∙◌, true, false, Option, none, some, List, [], ◌∷◌, String, arith,
  length, Bool-cases, inl, inr, if◌then◌else◌,
}
use nexusts.Prelude.JsMap
use nexusts.Prelude.JsMap.{JsMap}
use nexusts.Prelude.JsSet
use nexusts.Core.Provider.{
  Value, object, request, ClassRef, Dependency, Recipe, use_value, use_class, use_factory,
  use_existing, unknown_shape, Provider, class_provider, provide, ProviderRecord, inject_at,
  type_at, total_params,
}
use nexusts.Core.World.{Object, World, Outcome, returned, out_of_fuel, M, ◌>>=◌, Resolver}
use nexusts.Core.Instantiate.{
  try_resolve, with_object, construct, inject_fields, param_of_type, chosen_param, inject_param,
  inject_params, has_field_injections, inject_into_fields, inject_into_constructor,
  instantiate_class, inject_arg, inject_args, instantiate_recipe, instantiate,
}
use nexusts.Core.Container.{memoised, cached_in_request, resolve}
use nexusts.Core.Container.Requests.{resolve-in_request}

abbrev pub first_field : JsMap String → Option String
first_field [] = none
first_field ((name, t) ∷ fields) = some t

abbrev pub first_dependency : List Dependency → Option String
first_dependency [] = none
first_dependency (d ∷ ds) = some d.token

abbrev pub or_type : Option String → Option String → Option String
or_type (some t) type = some t
or_type none type = type

-- The first parameter's token, if the constructor has parameters.
abbrev pub first_param : ClassRef → ℕ → Option String
first_param cls zero = none
first_param cls (suc n) = or_type (inject_at 0 cls.injects) (type_at 0 cls.param_types)

-- The token that the instantiation of a class resolves first, if it resolves any.
abbrev pub class_needs : ClassRef → Option String
class_needs cls =
    if has_field_injections cls.fields
    then (if cls.constructs [] then first_field cls.fields else none)
    else first_param cls (total_params cls)

abbrev pub recipe_needs : Recipe → Option String
recipe_needs (use_value v) = none
recipe_needs (use_class cls) = class_needs cls
recipe_needs (use_factory inject make) = first_dependency inject
recipe_needs (use_existing t) = some t
recipe_needs unknown_shape = none

abbrev pub needs : Provider → Option String
needs (class_provider cls) = class_needs cls
needs (provide token scope recipe) = recipe_needs recipe

bind_lost :
    {A B : Type 0} (m : M A) (f : A → M B) (w : World)
    → m w ≡ out_of_fuel
    → (m >>= f) w ≡ out_of_fuel
bind_lost {A} m f w e = ap (λ (o : Outcome A). ◌>>=◌ (λ _. o) f w) e

bind_returned :
    {A B : Type 0} (m : M A) (f : A → M B) (w u : World) (a : A)
    → m w ≡ returned a u
    → (m >>= f) w ≡ f a u
bind_returned {A} m f w u a e = ap (λ (o : Outcome A). ◌>>=◌ (λ _. o) f w) e

-- The resolver does not come back for the token, whatever objects there are.
module _ (res : Resolver) (w : World) (t : String)
    (lost : (os : List Object) → res t (record w { objects = os }) ≡ out_of_fuel) where
  fields_lost :
      (instance : Value) (fields : JsMap String) (os : List Object)
      → first_field fields ≡ some t
      → inject_fields res instance fields (record w { objects = os }) ≡ out_of_fuel
  unfolding inject_fields
  fields_lost instance [] os e = absurd (cc)
  fields_lost instance ((name, u) ∷ fields) os e =
      let p : u ≡ t = cc in bind_lost (res u) _ (record w { objects = os }) (rw p (lost os))

  into_fields_lost :
      (cls : ClassRef) (os : List Object)
      → cls.constructs [] ≡ true
      → first_field cls.fields ≡ some t
      → inject_into_fields res cls (record w { objects = os }) ≡ out_of_fuel
  unfolding inject_into_fields construct
  into_fields_lost cls os c e =
      bind_returned (construct cls []) _ (record w { objects = os })
        (record w { objects = with_object cls [] os }) (object (length os)) (rw c refl)
      ∙ fields_lost (object (length os)) cls.fields (with_object cls [] os) e

  chosen_lost :
      (cls : ClassRef) (token : Option String) (os : List Object)
      → or_type token (type_at 0 cls.param_types) ≡ some t
      → chosen_param res 0 cls token (record w { objects = os }) ≡ out_of_fuel
  unfolding chosen_param param_of_type
  chosen_lost cls (some u) os e = let p : u ≡ t = cc in rw p (lost os)
  chosen_lost cls none os e = rw e (lost os)

  params_lost :
      (cls : ClassRef) (n : ℕ) (os : List Object)
      → first_param cls n ≡ some t
      → inject_params res cls n 0 (record w { objects = os }) ≡ out_of_fuel
  unfolding inject_params inject_param
  params_lost cls zero os e = absurd (cc)
  params_lost cls (suc n) os e =
      bind_lost (inject_param res cls 0) _ (record w { objects = os })
        (chosen_lost cls (inject_at 0 cls.injects) os e)

  into_constructor_lost :
      (cls : ClassRef) (os : List Object)
      → first_param cls (total_params cls) ≡ some t
      → inject_into_constructor res cls (record w { objects = os }) ≡ out_of_fuel
  unfolding inject_into_constructor
  into_constructor_lost cls os e =
      bind_lost (inject_params res cls (total_params cls) 0) _ (record w { objects = os })
        (params_lost cls (total_params cls) os e)

  class_lost :
      (cls : ClassRef) (os : List Object)
      → class_needs cls ≡ some t
      → instantiate_class res cls (record w { objects = os }) ≡ out_of_fuel
  unfolding instantiate_class
  class_lost cls os e = elim (Bool-cases (has_field_injections cls.fields)) [
    | inl f ↦ elim (Bool-cases (cls.constructs [])) [
      | inl c ↦ rw f (into_fields_lost cls os c (ground (arith, e, f, c)))
      | inr c ↦ absurd (ground (arith, e, f, c))
    ]
    | inr f ↦ rw f (into_constructor_lost cls os (ground (arith, e, f)))
  ]

  arg_lost :
      (d : Dependency) (os : List Object)
      → d.token ≡ t
      → inject_arg res d (record w { objects = os }) ≡ out_of_fuel
  unfolding inject_arg try_resolve
  arg_lost d os p = elim (Bool-cases d.optional) [
    | inl e ↦ rw (e, p, lost os) refl
    | inr e ↦ rw (e, p, lost os) refl
  ]

  recipe_lost :
      (token : String) (recipe : Recipe) (os : List Object)
      → recipe_needs recipe ≡ some t
      → instantiate_recipe res token recipe (record w { objects = os }) ≡ out_of_fuel
  unfolding instantiate_recipe inject_args
  recipe_lost token (use_value v) os e = absurd (cc)
  recipe_lost token (use_class cls) os e = class_lost cls os e
  recipe_lost token (use_factory [] make) os e = absurd (cc)
  recipe_lost token (use_factory (d ∷ ds) make) os e =
      let p : d.token ≡ t = cc in
      bind_lost (inject_args res (d ∷ ds)) _ (record w { objects = os })
        (bind_lost (inject_arg res d) _ (record w { objects = os }) (arg_lost d os p))
  recipe_lost token (use_existing u) os e = let p : u ≡ t = cc in rw p (lost os)
  recipe_lost token unknown_shape os e = absurd (cc)

  instantiate_lost :
      (p : Provider) (os : List Object)
      → needs p ≡ some t
      → instantiate res p (record w { objects = os }) ≡ out_of_fuel
  unfolding instantiate
  instantiate_lost (class_provider cls) os e = class_lost cls os e
  instantiate_lost (provide token scope recipe) os e = recipe_lost token recipe os e

-- A token of a cycle: held for requests, new, and what it needs first is in the cycle too.
pub record IsCyclic (w : World) (cache : JsMap Value) (Cycle : String → Type 0) (t : String)
    : Type 0 where
  pub entry : ProviderRecord
  pub held : JsMap.get t w.this.providers ≡ some entry
  pub scoped : entry.scope ≡ request
  pub idle : JsSet.has t w.this.resolving ≡ false
  pub unshared : memoised t w.this.singletons ≡ none
  pub new : memoised t cache ≡ none
  pub need : String
  pub needed : needs entry.provider ≡ some need
  pub again : Cycle need

module _ (w : World) (cache : JsMap Value) (Cycle : String → Type 0)
    (active : w.request_cache ≡ some cache)
    (cyclic : (t : String) → Cycle t → IsCyclic w cache Cycle t) where
  loops :
      (n : ℕ) (t : String) (os : List Object)
      → Cycle t
      → resolve n t (record w { objects = os }) ≡ out_of_fuel
  unfolding resolve cached_in_request
  loops zero t os h = refl
  loops (suc n) t os h =
      let c : IsCyclic w cache Cycle t = cyclic t h in
      resolve-in_request t (record w { objects = os }) c.entry cache c.held c.scoped active
        c.unshared n c.idle
      ∙ rw
          (
            c.new,
            instantiate_lost (resolve n) w c.need (λ ps. loops n c.need ps c.again) c.entry.provider
                os c.needed,
          )
          refl

  -- While a request is active, a cycle of providers of scope `request`, none of which has an
  -- instance yet, is not detected: `resolve` of a token of the cycle recurses for ever.
  pub resolve_loops : (n : ℕ) (t : String) → Cycle t → resolve n t w ≡ out_of_fuel
  resolve_loops n t h = loops n t w.objects h
