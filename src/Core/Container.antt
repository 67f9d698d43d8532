-- ===== src/Core/Container.antt =====
-- packages/core/src/di/container.ts: resolution and registration. The recursion takes fuel, `resolve`
-- passing itself on to what it calls.
mod Growth
mod Instances
mod Endings
mod Resolution
mod Calls
mod Identity
mod Requests
mod Termination
mod Cycles
mod Objects
mod Registration
mod Tests
use nexusts.Prelude.{
  ℕ, zero, suc, ◌+◌, Bool, true, false, Option, none, some, List, [], ◌∷◌, ◌++◌, String,
  if◌then◌else◌, length,
}
use nexusts.Prelude.JsMap
use nexusts.Prelude.JsMap.{JsMap}
use nexusts.Prelude.JsSet
use nexusts.Prelude.JsSet.{JsSet}
use nexusts.Core.Provider.{
  Value, undefined, plain, object, ProviderScope, singleton, request, transient, ClassRef,
  Dependency, Recipe, use_value, use_class, use_factory, use_existing, unknown_shape, Provider,
  class_provider, provide, ProviderRecord, inject_at, type_at, total_params, normalize_provider,
}
use nexusts.Core.World.{
  Container, Error, M, Object, Outcome, Resolver, World, circular, duplicate, no_parameter_type,
  no_provider, out_of_fuel, pure, returned, throw, thrown, unknown_provider, user_error, ◌>>=◌,
}
use nexusts.Core.Instantiate.{
  call_factory, chosen_param, construct, has_field_injections, inject_arg, inject_args,
  inject_fields, inject_into_constructor, inject_into_fields, inject_param, inject_params,
  instantiate, instantiate_class, instantiate_recipe, or_undefined, param_of_type, set_field,
  try_resolve, with_object, write_field,
}

-- `map.get(token)` where the answer is not `undefined`.
abbrev pub defined : Option Value → Option Value
defined none = none
defined (some undefined) = none
defined (some (plain n)) = some (plain n)
defined (some (object id)) = some (object id)

pub memoised : String → JsMap Value → Option Value
memoised token m = defined (JsMap.get token m)

pub is_request : ProviderScope → Bool
is_request request = true
is_request singleton = false
is_request transient = false

pub is_singleton : ProviderScope → Bool
is_singleton singleton = true
is_singleton request = false
is_singleton transient = false

abbrev pub begin_resolving : String → World → World
begin_resolving token w = record w {
  this = record w.this { resolving = JsSet.add token w.this.resolving };
}

abbrev pub end_resolving : String → World → World
end_resolving token w = record w {
  this = record w.this { resolving = JsSet.remove token w.this.resolving };
}

abbrev pub memoise : String → Value → World → World
memoise token v w = record w {
  this = record w.this { singletons = JsMap.set token v w.this.singletons };
}

-- `try { … } finally { this.resolving.delete(token); }`.
abbrev pub finally_end : String → Bool → Outcome Value → Outcome Value
finally_end token single (returned v w) =
    returned v (end_resolving token (if single then memoise token v w else w))
finally_end token single (thrown e w) = thrown e (end_resolving token w)
finally_end token single out_of_fuel = out_of_fuel

pub resolve_here : Resolver → ProviderRecord → String → M Value
unfolding is_singleton instantiate
resolve_here resolve r token w =
    finally_end token (is_singleton r.scope)
      (instantiate resolve r.provider (begin_resolving token w))

abbrev pub cache_in_request : String → Value → World → World
cache_in_request token v w = record w {
  request_cache = JsMap.map_option (JsMap.set token v) w.request_cache;
}

abbrev pub store_in_request : String → Outcome Value → Outcome Value
store_in_request token (returned v w) = returned v (cache_in_request token v w)
store_in_request token (thrown e w) = thrown e w
store_in_request token out_of_fuel = out_of_fuel

pub cached_in_request : Resolver → ProviderRecord → String → Option Value → M Value
unfolding instantiate
cached_in_request resolve r token (some v) w = returned v w
cached_in_request resolve r token none w = store_in_request token (instantiate resolve r.provider w)

pub resolve_in_request : Resolver → ProviderRecord → String → JsMap Value → M Value
unfolding memoised cached_in_request
resolve_in_request resolve r token cache w =
    cached_in_request resolve r token (memoised token cache) w

-- The answer of the parent, seen from the child. Whatever the parent threw, the child throws that
-- there is no provider.
abbrev pub from_parent : String → Container → Outcome Value → Outcome Value
from_parent token child (returned v w) =
    returned v (record w { this = child; parents = w.this ∷ w.parents })
from_parent token child (thrown e w) =
    thrown (no_provider token) (record w { this = child; parents = w.this ∷ w.parents })
from_parent token child out_of_fuel = out_of_fuel

pub resolve_in_parent : Resolver → String → List Container → M Value
resolve_in_parent resolve token [] w = thrown (no_provider token) w
resolve_in_parent resolve token (p ∷ ps) w =
    from_parent token w.this (resolve token (record w { this = p; parents = ps }))

-- Whether the scope is `request`, and the cache of the active request.
abbrev pub resolve_scoped :
    Resolver → Bool → Option (JsMap Value) → ProviderRecord → String → M Value
resolve_scoped resolve true (some cache) r token w = resolve_in_request resolve r token cache w
resolve_scoped resolve true none r token w = resolve_here resolve r token w
resolve_scoped resolve false cache r token w = resolve_here resolve r token w

pub resolve_new : Resolver → Option ProviderRecord → String → M Value
unfolding is_request resolve_here resolve_in_request resolve_in_parent
resolve_new resolve none token w = resolve_in_parent resolve token w.parents w
resolve_new resolve (some r) token w =
    resolve_scoped resolve (is_request r.scope) w.request_cache r token w

pub resolve : ℕ → Resolver
unfolding memoised resolve_new
resolve zero token w = out_of_fuel
resolve (suc n) token w =
    if JsSet.has token w.this.resolving
    then thrown (circular token w.this.resolving) w
    else (elim (memoised token w.this.singletons) [
      | some v ↦ returned v w
      | none ↦ resolve_new (resolve n) (JsMap.get token w.this.providers) token w
    ])

-- Registration stops at the first duplicate; what was registered before it stays.
pub register_one : Provider → M (Unit {0})
unfolding normalize_provider
register_one provider w =
    let r = normalize_provider provider in
    if JsMap.has r.token w.this.providers
    then thrown (duplicate r.token) w
    else returned tt
        (record w { this = record w.this { providers = JsMap.set r.token r w.this.providers } })

pub register : List Provider → M (Unit {0})
unfolding register_one
register [] = pure tt
register (p ∷ ps) = do done ← register_one p; register ps

pub has : String → World → Bool
has token w = JsMap.has token w.this.providers

pub create_child : World → World
create_child w = record w {
  this = record { providers = []; singletons = []; resolving = [] };
  parents = w.this ∷ w.parents;
}

pub add_tokens : List String → JsSet → JsSet
add_tokens [] seen = seen
add_tokens (t ∷ ts) seen = add_tokens ts (JsSet.add t seen)

pub list_chain : List Container → JsSet → JsSet
unfolding add_tokens
list_chain [] seen = seen
list_chain (c ∷ cs) seen = list_chain cs (add_tokens (JsMap.keys c.providers) seen)

pub list_providers : World → List String
unfolding list_chain
list_providers w = list_chain (w.this ∷ w.parents) []
