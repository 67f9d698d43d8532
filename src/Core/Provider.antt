-- ===== src/Core/Provider.antt =====
-- packages/core/src/di/tokens.ts and container.ts: tokens, providers and their records. A token is
-- a text that identifies a class, a string or a symbol. A class is what the decorators have stored
-- of it; the body of a constructor or a factory is a function that says what it does.
use nexusts.Prelude.{
  ℕ, zero, suc, ◌+◌, max, Bool, Option, none, some, List, [], ◌∷◌, String, ◌==◌, if◌then◌else◌,
  length, get_or_else,
}
use nexusts.Prelude.JsMap.{JsMap}
use nexusts.Prelude.JsSet
use nexusts.Prelude.JsSet.{JsSet}

-- `object` names an object that `new` has made.
pub data Value : Type 0 where
  undefined : Value
  plain : ℕ → Value
  object : ℕ → Value

pub data ProviderScope : Type 0 where
  singleton : ProviderScope
  request : ProviderScope
  transient : ProviderScope

-- `param_types` is `design:paramtypes` with `none` for a missing or an `Object` type, `injects` the
-- tokens of `@Inject` by parameter, `fields` the tokens of `@Inject` by field. `constructs` says
-- whether the constructor returns on its arguments.
pub record ClassRef : Type 0 where
  pub token : String
  pub scope : Option ProviderScope
  pub param_types : List (Option String)
  pub injects : List (ℕ × String)
  pub fields : JsMap String
  pub constructs : List Value → Bool

pub record Dependency : Type 0 where
  pub token : String
  pub optional : Bool

-- A factory gives `none` where it throws.
pub data Recipe : Type 0 where
  use_value : Value → Recipe
  use_class : ClassRef → Recipe
  use_factory : List Dependency → (List Value → Option Value) → Recipe
  use_existing : String → Recipe
  unknown_shape : Recipe

pub data Provider : Type 0 where
  class_provider : ClassRef → Provider
  provide : String → Option ProviderScope → Recipe → Provider

pub record ProviderRecord : Type 0 where
  pub token : String
  pub provider : Provider
  pub scope : ProviderScope
  pub dependencies : JsSet

-- `injectMap.get(index)`.
unfoldable pub inject_at : ℕ → List (ℕ × String) → Option String
inject_at index [] = none
inject_at index ((i, t) ∷ m) = if i == index then some t else inject_at index m

unfoldable pub type_at : ℕ → List (Option String) → Option String
type_at index [] = none
type_at zero (t ∷ ts) = t
type_at (suc index) (t ∷ ts) = type_at index ts

-- `Math.max(...injectMap.keys()) + 1`, and 0 for an empty map.
unfoldable pub max_inject_index : List (ℕ × String) → ℕ
max_inject_index [] = 0
max_inject_index ((i, t) ∷ m) = max (i + 1) (max_inject_index m)

unfoldable pub total_params : ClassRef → ℕ
unfolding max_inject_index
total_params cls = max (length cls.param_types) (max_inject_index cls.injects)

unfoldable pub add_types : List (Option String) → JsSet → JsSet
add_types [] s = s
add_types (none ∷ ts) s = add_types ts s
add_types (some t ∷ ts) s = add_types ts (JsSet.add t s)

unfoldable pub add_fields : JsMap String → JsSet → JsSet
add_fields [] s = s
add_fields ((name, t) ∷ m) s = add_fields m (JsSet.add t s)

unfoldable pub read_class_dependencies : ClassRef → JsSet
unfolding add_types add_fields
read_class_dependencies cls = add_fields cls.fields (add_types cls.param_types [])

unfoldable pub add_dependencies : List Dependency → JsSet → JsSet
add_dependencies [] s = s
add_dependencies (d ∷ ds) s = add_dependencies ds (JsSet.add d.token s)

unfoldable pub read_provider_dependencies : Recipe → JsSet
unfolding read_class_dependencies add_dependencies
read_provider_dependencies (use_factory inject make) = add_dependencies inject []
read_provider_dependencies (use_class cls) = read_class_dependencies cls
read_provider_dependencies (use_value v) = []
read_provider_dependencies (use_existing t) = []
read_provider_dependencies unknown_shape = []

unfoldable pub normalize_provider : Provider → ProviderRecord
unfolding read_class_dependencies read_provider_dependencies
normalize_provider (class_provider cls) = record {
  token = cls.token;
  provider = class_provider cls;
  scope = get_or_else cls.scope singleton;
  dependencies = read_class_dependencies cls;
}
normalize_provider (provide token scope recipe) = record {
  token = token;
  provider = provide token scope recipe;
  scope = get_or_else scope singleton;
  dependencies = read_provider_dependencies recipe;
}
