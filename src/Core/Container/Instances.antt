-- ===== src/Core/Container/Instances.antt =====
-- packages/core/src/di/container.ts: an instantiation grows the containers if the resolver it is
-- given does.
use nexusts.Prelude.{
  ℕ, zero, suc, ◌+◌, Option, none, some, List, [], ◌∷◌, String, Bool-cases, inl, inr,
}
use nexusts.Prelude.JsMap.{JsMap}
use nexusts.Core.Provider.{
  Value, Recipe, use_value, use_class, use_factory, use_existing, unknown_shape, Provider,
  class_provider, provide, ClassRef, Dependency, inject_at, type_at, total_params,
}
use nexusts.Core.World.{World, Resolver}
use nexusts.Core.Instantiate.{
  try_resolve, param_of_type, chosen_param, has_field_injections, inject_arg, construct,
  write_field, inject_fields, inject_param, inject_params, inject_into_fields,
  inject_into_constructor, instantiate_class, inject_args, call_factory, instantiate_recipe,
  instantiate,
}
use nexusts.Core.Container.Growth.{
  IsGrowing, WorldGrows, WorldGrows-refl, >>=-IsGrowing, construct-grows, write_field-grows,
  or_undefined-After,
}

module _ (Pre : World → Type 0) (Stuck : Type 0)
    (stays : (v w : World) → WorldGrows v w → Pre v → Pre w) (res : Resolver)
    (growing : (t : String) → IsGrowing Pre Stuck (res t)) where
  grown_same : (w : World) → Pre w → WorldGrows w w
  grown_same w pre = WorldGrows-refl w

  try_resolve-IsGrowing : (t : String) → IsGrowing Pre Stuck (try_resolve res t)
  unfolding try_resolve
  try_resolve-IsGrowing t w pre = or_undefined-After Stuck w (res t w) (growing t w pre)

  inject_fields-IsGrowing :
      (instance : Value) (fields : JsMap String)
      → IsGrowing Pre Stuck (inject_fields res instance fields)
  unfolding inject_fields
  inject_fields-IsGrowing instance [] = grown_same
  inject_fields-IsGrowing instance ((name, t) ∷ fields) =
      >>=-IsGrowing Pre Stuck stays (res t) _ (growing t) (λ v.
        >>=-IsGrowing Pre Stuck stays (write_field instance name v) _
          (λ w pre. write_field-grows instance name v Stuck w)
          (λ i. inject_fields-IsGrowing i fields))

  type_param-IsGrowing :
      (index : ℕ) (token : String) (type : Option String)
      → IsGrowing Pre Stuck (param_of_type res index token type)
  unfolding param_of_type
  type_param-IsGrowing index token none = grown_same
  type_param-IsGrowing index token (some t) = growing t

  chosen_param-IsGrowing :
      (index : ℕ) (cls : ClassRef) (token : Option String)
      → IsGrowing Pre Stuck (chosen_param res index cls token)
  unfolding chosen_param
  chosen_param-IsGrowing index cls none =
      type_param-IsGrowing index cls.token (type_at index cls.param_types)
  chosen_param-IsGrowing index cls (some t) = growing t

  inject_param-IsGrowing :
      (cls : ClassRef) (index : ℕ) → IsGrowing Pre Stuck (inject_param res cls index)
  unfolding inject_param
  inject_param-IsGrowing cls index = chosen_param-IsGrowing index cls (inject_at index cls.injects)

  pub inject_params-IsGrowing :
      (cls : ClassRef) (left index : ℕ) → IsGrowing Pre Stuck (inject_params res cls left index)
  unfolding inject_params
  inject_params-IsGrowing cls zero index = grown_same
  inject_params-IsGrowing cls (suc left) index =
      >>=-IsGrowing Pre Stuck stays (inject_param res cls index) _
        (inject_param-IsGrowing cls index)
        (λ v.
          >>=-IsGrowing Pre Stuck stays (inject_params res cls left (index + 1)) _
            (inject_params-IsGrowing cls left (index + 1)) (λ vs. grown_same))

  instantiate_class-IsGrowing : (cls : ClassRef) → IsGrowing Pre Stuck (instantiate_class res cls)
  unfolding instantiate_class inject_into_fields inject_into_constructor
  instantiate_class-IsGrowing cls = elim (Bool-cases (has_field_injections cls.fields)) [
    | inl e ↦ rw e (
        >>=-IsGrowing Pre Stuck stays (construct cls []) _ (λ w pre. construct-grows cls [] Stuck w)
          (λ i. inject_fields-IsGrowing i cls.fields))
    | inr e ↦ rw e (
        >>=-IsGrowing Pre Stuck stays (inject_params res cls (total_params cls) 0) _
          (inject_params-IsGrowing cls (total_params cls) 0)
          (λ params w pre. construct-grows cls params Stuck w))
  ]

  inject_arg-IsGrowing : (d : Dependency) → IsGrowing Pre Stuck (inject_arg res d)
  unfolding inject_arg
  inject_arg-IsGrowing d = elim (Bool-cases d.optional) [
    | inl e ↦ rw e (try_resolve-IsGrowing d.token)
    | inr e ↦ rw e (growing d.token)
  ]

  inject_args-IsGrowing : (ds : List Dependency) → IsGrowing Pre Stuck (inject_args res ds)
  unfolding inject_args
  inject_args-IsGrowing [] = grown_same
  inject_args-IsGrowing (d ∷ ds) =
      >>=-IsGrowing Pre Stuck stays (inject_arg res d) _ (inject_arg-IsGrowing d) (λ v.
        >>=-IsGrowing Pre Stuck stays (inject_args res ds) _ (inject_args-IsGrowing ds)
          (λ vs. grown_same))

  call_factory-IsGrowing : (t : String) (v : Option Value) → IsGrowing Pre Stuck (call_factory t v)
  unfolding call_factory
  call_factory-IsGrowing t none = grown_same
  call_factory-IsGrowing t (some v) = grown_same

  instantiate_recipe-IsGrowing :
      (t : String) (recipe : Recipe) → IsGrowing Pre Stuck (instantiate_recipe res t recipe)
  unfolding instantiate_recipe
  instantiate_recipe-IsGrowing t (use_value v) = grown_same
  instantiate_recipe-IsGrowing t (use_class cls) = instantiate_class-IsGrowing cls
  instantiate_recipe-IsGrowing t (use_factory ds make) =
      >>=-IsGrowing Pre Stuck stays (inject_args res ds) _ (inject_args-IsGrowing ds)
        (λ args. call_factory-IsGrowing t (make args))
  instantiate_recipe-IsGrowing t (use_existing u) = growing u
  instantiate_recipe-IsGrowing t unknown_shape = grown_same

  pub instantiate-IsGrowing : (p : Provider) → IsGrowing Pre Stuck (instantiate res p)
  unfolding instantiate
  instantiate-IsGrowing (class_provider cls) = instantiate_class-IsGrowing cls
  instantiate-IsGrowing (provide t scope recipe) = instantiate_recipe-IsGrowing t recipe
