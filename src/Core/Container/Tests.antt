-- ===== src/Core/Container/Tests.antt =====
-- packages/core/src/di/container.ts: runs of small containers.
use nexusts.Prelude.{
  ◌≡◌, ◌≢◌, ◌⊎◌, inl, inr, refl, Bool, true, Option, none, some, List, [], ◌∷◌, String, arith, map,
}
use nexusts.Prelude.JsMap.{JsMap}
use nexusts.Core.Provider.{
  Value, undefined, object, ProviderScope, request, transient, ClassRef, use_factory, use_existing,
  Provider, class_provider, provide, ProviderRecord, normalize_provider,
}
use nexusts.Core.World.{
  Container, World, Error, circular, no_provider, duplicate, Outcome, returned, thrown, out_of_fuel,
}
use nexusts.Core.Container.{resolve, register, create_child, list_providers, memoised}
use nexusts.Core.Container.Calls.{here, next, resolves}
use nexusts.Core.Container.Identity.{Reach-same_singleton}
use nexusts.Core.Container.Requests.{Within-same_instance}
use nexusts.Core.Container.Termination.{resolve_total}
use nexusts.Core.Container.Cycles.{IsCyclic, resolve_loops}
use nexusts.Core.Container.Registration.{register-records, Registered, all_new, token_of}

abbrev always : List Value → Bool
always vs = true

-- A database, a repository with a constructor parameter, a service with a field, a logger that is
-- made anew, a session for each request, and an alias.
abbrev database : ClassRef
database = record {
  token = "Db";
  scope = none;
  param_types = [];
  injects = [];
  fields = [];
  constructs = always;
}

abbrev repository : ClassRef
repository = record {
  token = "Repo";
  scope = none;
  param_types = none ∷ [];
  injects = (0, "Db") ∷ [];
  fields = [];
  constructs = always;
}

abbrev service : ClassRef
service = record {
  token = "Service";
  scope = none;
  param_types = [];
  injects = [];
  fields = ("repo", "Repo") ∷ [];
  constructs = always;
}

abbrev logger : ClassRef
logger = record {
  token = "Log";
  scope = some transient;
  param_types = [];
  injects = [];
  fields = [];
  constructs = always;
}

abbrev session : ClassRef
session = record {
  token = "Session";
  scope = some request;
  param_types = [];
  injects = [];
  fields = [];
  constructs = always;
}

abbrev records : List Provider → JsMap ProviderRecord
records [] = []
records (p ∷ ps) = ((normalize_provider p).token, normalize_provider p) ∷ records ps

abbrev empty : Container
empty = record { providers = []; singletons = []; resolving = [] }

abbrev bare : World
bare = record { this = empty; parents = []; request_cache = none; objects = [] }

abbrev app_providers : List Provider
app_providers =
    class_provider database
    ∷ class_provider repository
    ∷ class_provider service
    ∷ class_provider logger
    ∷ class_provider session
    ∷ provide "alias" none (use_existing "Db")
    ∷ []

abbrev thrown_of : {A : Type 0} → Outcome A → Option Error
thrown_of (returned v w) = none
thrown_of (thrown e w) = some e
thrown_of out_of_fuel = none

abbrev world_of : {A : Type 0} → Outcome A → World
world_of (returned v w) = w
world_of (thrown e w) = w
world_of out_of_fuel = bare

abbrev app : World
unfolding register
app = world_of (register app_providers bare)

abbrev asked : World
unfolding register resolve
asked = world_of (resolve 7 "Service" app)

service_made : resolve 7 "Service" app ≡ returned (object 0) asked
unfolding register resolve
service_made = refl

abbrev asked_alias : World
unfolding register resolve
asked_alias = world_of (resolve 7 "alias" asked)

alias_made : resolve 7 "alias" asked ≡ returned (object 1) asked_alias
unfolding register resolve
alias_made = refl

service_again : resolve 1 "Service" asked_alias ≡ returned (object 0) asked_alias
unfolding register resolve
service_again = refl

Reach-same_singleton_example : (object 0 ≡ object 0) × (asked_alias ≡ asked_alias)
unfolding register resolve
Reach-same_singleton_example =
    Reach-same_singleton 7 1 "Service" (object 0) (object 0) app asked asked_alias asked_alias
      (normalize_provider (class_provider service)) refl refl (cc) service_made
      (next here (resolves 7 "alias" (object 1) alias_made)) service_again

-- The same providers while a request is active.
abbrev in_app : World
unfolding register
in_app = record app { request_cache = some [] }

abbrev asked_session : World
unfolding register resolve
asked_session = world_of (resolve 7 "Session" in_app)

session_made : resolve 7 "Session" in_app ≡ returned (object 0) asked_session
unfolding register resolve
session_made = refl

session_again : resolve 3 "Session" asked_session ≡ returned (object 0) asked_session
unfolding register resolve
session_again = refl

Within-same_instance_example : (object 0 ≡ object 0) × (asked_session ≡ asked_session)
unfolding register resolve memoised
Within-same_instance_example =
    Within-same_instance 7 3 "Session" (object 0) (object 0) in_app asked_session asked_session
      asked_session (normalize_provider (class_provider session)) [] refl refl refl refl (cc)
      session_made here session_again

-- Two classes that need each other.
abbrev ring : Option ProviderScope → List Provider
ring scope = provide "A" scope (use_existing "B") ∷ provide "B" scope (use_existing "A") ∷ []

abbrev ring_world : Option ProviderScope → Option (JsMap Value) → World
ring_world scope cache = record bare {
  this = record empty { providers = records (ring scope) };
  request_cache = cache;
}

resolve_total_example : resolve 3 "A" (ring_world none none) ≢ out_of_fuel
resolve_total_example = resolve_total 3 "A" (ring_world none none) refl (omega arith)

-- Outside a request the cycle is reported.
cycle_found :
    thrown_of (resolve 3 "A" (ring_world none none)) ≡ some (circular "A" ("A" ∷ "B" ∷ []))
unfolding resolve normalize_provider
cycle_found = refl

abbrev InRing : String → Type 0
InRing t = (t ≡ "A") ⊎ (t ≡ "B")

ring-IsCyclic : (t : String) → InRing t → IsCyclic (ring_world (some request) (some [])) [] InRing t
unfolding memoised normalize_provider
ring-IsCyclic t (inl e) = rw e (record {
  entry = normalize_provider (provide "A" (some request) (use_existing "B"));
  held = refl;
  scoped = refl;
  idle = refl;
  unshared = refl;
  new = refl;
  need = "B";
  needed = refl;
  again = inr refl;
})
ring-IsCyclic t (inr e) = rw e (record {
  entry = normalize_provider (provide "B" (some request) (use_existing "A"));
  held = refl;
  scoped = refl;
  idle = refl;
  unshared = refl;
  new = refl;
  need = "A";
  needed = refl;
  again = inl refl;
})

resolve_loops_example : resolve 40 "A" (ring_world (some request) (some [])) ≡ out_of_fuel
resolve_loops_example =
    resolve_loops (ring_world (some request) (some [])) [] InRing refl ring-IsCyclic 40 "A"
      (inl refl)

register-records_example :
    Registered bare app_providers
      (all_new [] (map token_of app_providers))
      (register app_providers bare)
register-records_example = register-records app_providers bare

-- The second provider of a token is refused, the first one stays.
duplicate_refused :
    thrown_of (register (class_provider logger ∷ class_provider logger ∷ []) bare)
    ≡ some (duplicate "Log")
unfolding register
duplicate_refused = refl

abbrev logged : World
unfolding register resolve
logged = world_of (resolve 2 "Log" app)

abbrev logged_twice : World
unfolding register resolve
logged_twice = world_of (resolve 2 "Log" logged)

log_made : resolve 2 "Log" app ≡ returned (object 0) logged
unfolding register resolve
log_made = refl

log_made_again : resolve 2 "Log" logged ≡ returned (object 1) logged_twice
unfolding register resolve
log_made_again = refl

-- A cycle in the parent is reported to a child as a missing provider.
parent_cycle :
    thrown_of (resolve 4 "A" (create_child (ring_world none none))) ≡ some (no_provider "A")
unfolding resolve create_child normalize_provider
parent_cycle = refl

-- A factory that gives `undefined` is called again, although its scope is singleton.
abbrev nothing : Provider
nothing = provide "None" none (use_factory [] (λ vs. some undefined))

undefined_stored : memoised "None" (("None", undefined) ∷ []) ≡ none
unfolding memoised normalize_provider
undefined_stored = refl

-- The providers of the parents are listed after the container's own, each token once.
listed :
    list_providers (create_child app) ≡ "Db" ∷ "Repo" ∷ "Service" ∷ "Log" ∷ "Session" ∷ "alias" ∷ []
unfolding list_providers create_child register
listed = refl
