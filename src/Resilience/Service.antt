-- ===== src/Resilience/Service.antt =====
-- packages/resilience/src/resilience.service.ts: the registry of `ResilienceService`. A breaker or a
-- bulkhead stands in the registry with the options that it was made with; what its users do to a
-- breaker is a function of its state. A store is a flag, as in the breakers.
pub mod Registry
mod Tests
use nexusts.Prelude.{
  ℕ, Bool, true, false, List, [], ◌∷◌, Option, none, some, String, get_or_else, if◌then◌else◌,
}
use nexusts.Prelude.JsMap
use nexusts.Prelude.JsMap.{JsMap}
use nexusts.Resilience.Circuit
use nexusts.Resilience.Circuit.{Config, Circuit, Metrics}
use nexusts.Resilience.Bulkhead
use nexusts.Resilience.Bulkhead.{Bulkhead}
use nexusts.Resilience.Retry.{RetryConfig, BackoffStrategy, exponential_jitter}

-- The options that a caller may leave out; the threshold is a fraction.
pub record CircuitOptions : Type 0 where
  pub threshold : Option (ℕ × ℕ)
  pub min_calls : Option ℕ
  pub timeout : Option ℕ
  pub half_open_after : Option ℕ
  pub window : Option ℕ

pub record BulkheadOptions : Type 0 where
  pub max_concurrent : Option ℕ
  pub max_queued : Option ℕ

pub record RetryOptions : Type 0 where
  pub attempts : Option ℕ
  pub initial_delay : Option ℕ
  pub max_delay : Option ℕ
  pub backoff : Option BackoffStrategy
  pub multiplier : Option ℕ

-- `{ ...defaults, ...options }`
abbrev pub merge_circuit : Config → CircuitOptions → Config
merge_circuit d o = record {
  threshold_num = (get_or_else o.threshold (d.threshold_num, d.threshold_den)).0;
  threshold_den = (get_or_else o.threshold (d.threshold_num, d.threshold_den)).1;
  min_calls = get_or_else o.min_calls d.min_calls;
  timeout = get_or_else o.timeout d.timeout;
  half_open_after = get_or_else o.half_open_after d.half_open_after;
  window = get_or_else o.window d.window;
}

abbrev pub merge_retry : RetryConfig → RetryOptions → RetryConfig
merge_retry d o = record {
  attempts = get_or_else o.attempts d.attempts;
  initial_delay = get_or_else o.initial_delay d.initial_delay;
  max_delay = get_or_else o.max_delay d.max_delay;
  backoff = get_or_else o.backoff d.backoff;
  multiplier = get_or_else o.multiplier d.multiplier;
}

abbrev pub default_circuit : Config
default_circuit = record {
  threshold_num = 1;
  threshold_den = 2;
  min_calls = 5;
  timeout = 30000;
  half_open_after = 1;
  window = 60000;
}

abbrev pub default_retry : RetryConfig
default_retry = record {
  attempts = 3;
  initial_delay = 100;
  max_delay = 30000;
  backoff = exponential_jitter;
  multiplier = 2;
}

pub record Service : Type 0 where
  pub retry : RetryConfig
  pub circuit : Config
  pub max_concurrent : ℕ
  pub max_queued : ℕ
  pub circuits : JsMap (Config × Circuit)
  pub bulkheads : JsMap Bulkhead
  pub has_store : Bool
  pub sync_interval : ℕ

abbrev pub constructed : RetryOptions → CircuitOptions → BulkheadOptions → Option ℕ → Bool → Service
constructed retry circuit bulkhead sync_interval has_store = record {
  retry = merge_retry default_retry retry;
  circuit = merge_circuit default_circuit circuit;
  max_concurrent = get_or_else bulkhead.max_concurrent 10;
  max_queued = get_or_else bulkhead.max_queued 100;
  circuits = [];
  bulkheads = [];
  has_store = has_store;
  sync_interval = get_or_else sync_interval 5000;
}

-- What `set_store` does to a breaker.
abbrev pub with_store : ℕ → Config × Circuit → Config × Circuit
with_store sync_interval b = (b.0, record b.1 { has_store = true; sync_interval = sync_interval })

unfoldable pub set_store : Service → Service
set_store s = record s {
  has_store = true;
  circuits = JsMap.map_values (with_store s.sync_interval) s.circuits;
}

-- A new breaker of the service; its fields for the store keep their values if there is none.
abbrev pub new_circuit : CircuitOptions → Service → Config × Circuit
new_circuit options s =
    let b : Config × Circuit = (merge_circuit s.circuit options, Circuit.constructed false) in
    if s.has_store then with_store s.sync_interval b else b

unfoldable pub get_or_create_circuit :
    String → CircuitOptions → Service → Service × (Config × Circuit)
get_or_create_circuit name options s = elim (JsMap.get name s.circuits) [
  | none ↦ (
    record s { circuits = JsMap.set name (new_circuit options s) s.circuits },
    new_circuit options s,
  )
  | some b ↦ (s, b)
]

abbrev pub new_bulkhead : BulkheadOptions → Service → Bulkhead
new_bulkhead options s =
    Bulkhead.constructed (get_or_else options.max_concurrent s.max_concurrent)
      (get_or_else options.max_queued s.max_queued)

unfoldable pub get_or_create_bulkhead : String → BulkheadOptions → Service → Service × Bulkhead
get_or_create_bulkhead name options s = elim (JsMap.get name s.bulkheads) [
  | none ↦ (
    record s { bulkheads = JsMap.set name (new_bulkhead options s) s.bulkheads },
    new_bulkhead options s,
  )
  | some b ↦ (s, b)
]

abbrev pub get_circuit : String → Service → Option (Config × Circuit)
get_circuit name s = JsMap.get name s.circuits

abbrev pub get_bulkhead : String → Service → Option Bulkhead
get_bulkhead name s = JsMap.get name s.bulkheads

-- Reading the state of a breaker may change it.
abbrev pub read_metrics : ℕ → Config × Circuit → Config × Circuit
read_metrics now b = (b.0, (Circuit.metrics b.0 now (Circuit.current_state b.0 now b.1)).0)

abbrev pub rows : ℕ → JsMap (Config × Circuit) → List (String × Metrics)
rows now [] = []
rows now ((name, b) ∷ m) =
    (name, (Circuit.metrics b.0 now (Circuit.current_state b.0 now b.1)).1) ∷ rows now m

unfoldable pub list_circuits : ℕ → Service → Service × List (String × Metrics)
list_circuits now s =
    (record s { circuits = JsMap.map_values (read_metrics now) s.circuits }, rows now s.circuits)

-- A user of the breaker of a name.
unfoldable pub use_circuit : String → (Config → Circuit → Circuit) → Service → Service
use_circuit name f s = elim (JsMap.get name s.circuits) [
  | none ↦ s
  | some b ↦ record s { circuits = JsMap.set name (b.0, f b.0 b.1) s.circuits }
]
