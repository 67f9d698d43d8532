-- ===== src/Core/Instantiate.antt =====
-- packages/core/src/di/container.ts: `instantiate`, on the resolver that it calls for each
-- dependency.
use nexusts.Prelude.{
  ℕ, zero, suc, ◌+◌, Bool, true, false, Option, none, some, List, [], ◌∷◌, ◌++◌, String,
  if◌then◌else◌, length,
}
use nexusts.Prelude.JsMap
use nexusts.Prelude.JsMap.{JsMap}
use nexusts.Core.Provider.{
  Value, undefined, plain, object, ClassRef, Dependency, Recipe, use_value, use_class, use_factory,
  use_existing, unknown_shape, Provider, class_provider, provide, inject_at, type_at, total_params,
}
use nexusts.Core.World.{
  M, Object, Outcome, Resolver, no_parameter_type, out_of_fuel, pure, returned, throw, thrown,
  unknown_provider, user_error, ◌>>=◌,
}

-- `try { … } catch { return undefined; }`. The stack has no bound here, so that its overflow is no error
-- that could be caught: a recursion for ever stays one.
abbrev pub or_undefined : Outcome Value → Outcome Value
or_undefined (returned v w) = returned v w
or_undefined (thrown e w) = returned undefined w
or_undefined out_of_fuel = out_of_fuel

unfoldable pub try_resolve : Resolver → Resolver
try_resolve resolve token w = or_undefined (resolve token w)

-- `new`, and the write to a field of what it has made.
abbrev pub with_object : ClassRef → List Value → List Object → List Object
with_object cls params os =
    os ++ record { class_token = cls.token; params = params; fields = [] } ∷ []

unfoldable pub construct : ClassRef → List Value → M Value
construct cls params w =
    if cls.constructs params
    then returned (object (length w.objects))
        (record w { objects = with_object cls params w.objects })
    else thrown (user_error cls.token) w

unfoldable pub set_field : ℕ → String → Value → List Object → List Object
set_field id name v [] = []
set_field zero name v (o ∷ os) = record o { fields = JsMap.set name v o.fields } ∷ os
set_field (suc id) name v (o ∷ os) = o ∷ set_field id name v os

unfoldable pub write_field : Value → String → Value → M Value
unfolding set_field
write_field (object id) name v w =
    returned (object id) (record w { objects = set_field id name v w.objects })
write_field (plain n) name v w = returned (plain n) w
write_field undefined name v w = returned undefined w

unfoldable pub inject_fields : Resolver → Value → JsMap String → M Value
unfolding write_field
inject_fields resolve instance [] = pure instance
inject_fields resolve instance ((name, token) ∷ fields) = do
  v ← resolve token
  instance' ← write_field instance name v
  inject_fields resolve instance' fields

unfoldable pub param_of_type : Resolver → ℕ → String → Option String → M Value
param_of_type resolve index class_token none = throw (no_parameter_type index class_token)
param_of_type resolve index class_token (some type) = resolve type

unfoldable pub chosen_param : Resolver → ℕ → ClassRef → Option String → M Value
unfolding param_of_type type_at
chosen_param resolve index cls none =
    param_of_type resolve index cls.token (type_at index cls.param_types)
chosen_param resolve index cls (some token) = resolve token

unfoldable pub inject_param : Resolver → ClassRef → ℕ → M Value
unfolding chosen_param inject_at
inject_param resolve cls index = chosen_param resolve index cls (inject_at index cls.injects)

-- The loop over the parameters: how many are left, and the index of the next one.
unfoldable pub inject_params : Resolver → ClassRef → ℕ → ℕ → M (List Value)
unfolding inject_param
inject_params resolve cls zero index = pure []
inject_params resolve cls (suc left) index = do
  v ← inject_param resolve cls index
  vs ← inject_params resolve cls left (index + 1)
  pure (v ∷ vs)

unfoldable pub has_field_injections : JsMap String → Bool
has_field_injections [] = false
has_field_injections (f ∷ fs) = true

unfoldable pub inject_into_fields : Resolver → ClassRef → M Value
unfolding construct inject_fields
inject_into_fields resolve cls = do
  instance ← construct cls []
  inject_fields resolve instance cls.fields

unfoldable pub inject_into_constructor : Resolver → ClassRef → M Value
unfolding construct inject_params total_params
inject_into_constructor resolve cls = do
  params ← inject_params resolve cls (total_params cls) 0
  construct cls params

unfoldable pub instantiate_class : Resolver → ClassRef → M Value
unfolding has_field_injections inject_into_fields inject_into_constructor
instantiate_class resolve cls =
    if has_field_injections cls.fields
    then inject_into_fields resolve cls
    else inject_into_constructor resolve cls

unfoldable pub inject_arg : Resolver → Dependency → M Value
unfolding try_resolve
inject_arg resolve d = if d.optional then try_resolve resolve d.token else resolve d.token

unfoldable pub inject_args : Resolver → List Dependency → M (List Value)
unfolding inject_arg
inject_args resolve [] = pure []
inject_args resolve (d ∷ ds) = do
  v ← inject_arg resolve d
  vs ← inject_args resolve ds
  pure (v ∷ vs)

unfoldable pub call_factory : String → Option Value → M Value
call_factory token none = throw (user_error token)
call_factory token (some v) = pure v

unfoldable pub instantiate_recipe : Resolver → String → Recipe → M Value
unfolding instantiate_class inject_args call_factory
instantiate_recipe resolve token (use_value v) = pure v
instantiate_recipe resolve token (use_class cls) = instantiate_class resolve cls
instantiate_recipe resolve token (use_factory inject make) = do
  args ← inject_args resolve inject
  call_factory token (make args)
instantiate_recipe resolve token (use_existing t) = resolve t
instantiate_recipe resolve token unknown_shape = throw (unknown_provider token)

unfoldable pub instantiate : Resolver → Provider → M Value
unfolding instantiate_class instantiate_recipe
instantiate resolve (class_provider cls) = instantiate_class resolve cls
instantiate resolve (provide token scope recipe) = instantiate_recipe resolve token recipe
