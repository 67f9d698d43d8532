-- ===== src/Resilience/Service/Registry.antt =====
-- packages/resilience/src/resilience.service.ts: the breaker of a name over the calls of the service.
use nexusts.Prelude.{
  ℕ, ◌≡◌, refl, ap, ◌∙◌, List, [], ◌∷◌, Option, none, some, String, eq_iff, arith, Option-cases,
  inl, inr,
}
use nexusts.Prelude.JsMap
use nexusts.Prelude.JsMap.{JsMap, map_option}
use nexusts.Resilience.Circuit.{Config, Circuit}
use nexusts.Resilience.Service.{
  CircuitOptions, BulkheadOptions, Service, with_store, set_store, new_circuit,
  get_or_create_circuit, get_or_create_bulkhead, read_metrics, list_circuits, use_circuit,
}

pub data Call : Type 0 where
  asking_circuit : String → CircuitOptions → Call
  asking_bulkhead : String → BulkheadOptions → Call
  setting_store : Call
  listing : ℕ → Call
  using_circuit : String → (Config → Circuit → Circuit) → Call

abbrev pub perform : Call → Service → Service
perform (asking_circuit name options) s = (get_or_create_circuit name options s).0
perform (asking_bulkhead name options) s = (get_or_create_bulkhead name options s).0
perform setting_store s = set_store s
perform (listing now) s = (list_circuits now s).0
perform (using_circuit name f) s = use_circuit name f s

unfoldable pub run : List Call → Service → Service
run [] s = s
run (c ∷ cs) s = run cs (perform c s)

abbrev pub config_of : Config × Circuit → Config
config_of b = b.0

-- The options that the breaker of the name was made with.
abbrev pub made_with : String → Service → Option Config
made_with name s = map_option config_of (JsMap.get name s.circuits)

map_kept :
    (name : String) (f : Config × Circuit → Config × Circuit) (m : JsMap (Config × Circuit))
    → ((b : Config × Circuit) → config_of (f b) ≡ config_of b)
    → map_option config_of (JsMap.get name (JsMap.map_values f m))
      ≡ map_option config_of (JsMap.get name m)
map_kept name f m h =
    ap (map_option config_of) (JsMap.get-map_values f name m) ∙ at_option (JsMap.get name m)
  where
    at_option :
        (o : Option (Config × Circuit))
        → map_option config_of (map_option f o) ≡ map_option config_of o
    at_option none = refl
    at_option (some b) = ap some (h b)

perform-made_with :
    (c : Call) (name : String) (config : Config) (s : Service)
    → made_with name s ≡ some config
    → made_with name (perform c s) ≡ some config
unfolding get_or_create_circuit get_or_create_bulkhead set_store list_circuits use_circuit
perform-made_with (asking_circuit n options) name config s h =
    elim (Option-cases (JsMap.get n s.circuits)) [
      | inl e ↦
          ground (arith, eq_iff n name, JsMap.get-set n name (new_circuit options s) s.circuits)
      | inr (b, e) ↦ ground arith
    ]
perform-made_with (asking_bulkhead n options) name config s h = ground arith
perform-made_with setting_store name config s h =
    map_kept name (with_store s.sync_interval) s.circuits (λ b. refl) ∙ h
perform-made_with (listing now) name config s h =
    map_kept name (read_metrics now) s.circuits (λ b. refl) ∙ h
perform-made_with (using_circuit n f) name config s h =
    elim (Option-cases (JsMap.get n s.circuits)) [
      | inl e ↦ ground arith
      | inr (b, e) ↦ ground (arith, eq_iff n name, JsMap.get-set n name (b.0, f b.0 b.1) s.circuits)
    ]

run-made_with :
    (cs : List Call) (name : String) (config : Config) (s : Service)
    → made_with name s ≡ some config
    → made_with name (run cs s) ≡ some config
unfolding run
run-made_with [] name config s h = h
run-made_with (c ∷ cs) name config s h =
    run-made_with cs name config (perform c s) (perform-made_with c name config s h)

created-made_with :
    (name : String) (options : CircuitOptions) (s : Service)
    → let created = get_or_create_circuit name options s in
      made_with name created.0 ≡ some (config_of created.1)
unfolding get_or_create_circuit
created-made_with name options s = elim (Option-cases (JsMap.get name s.circuits)) [
  | inl e ↦ ground (arith, JsMap.get-set_self name (new_circuit options s) s.circuits)
  | inr (b, e) ↦ ground arith
]

found-config :
    (name : String) (options : CircuitOptions) (config : Config) (s : Service)
    → made_with name s ≡ some config
    → config_of (get_or_create_circuit name options s).1 ≡ config
unfolding get_or_create_circuit
found-config name options config s h = elim (Option-cases (JsMap.get name s.circuits)) [
  | inl e ↦ ground arith
  | inr (b, e) ↦ ground arith
]

-- A breaker is shared under its name: after any calls, asking for it again gives a breaker with the
-- options of the first call, whatever options the later call names.
pub get_or_create_circuit-config :
    (name : String) (options later : CircuitOptions) (cs : List Call) (s : Service)
    → let created = get_or_create_circuit name options s in
      config_of (get_or_create_circuit name later (run cs created.0)).1 ≡ config_of created.1
get_or_create_circuit-config name options later cs s =
    let created = get_or_create_circuit name options s in
    found-config name later (config_of created.1) (run cs created.0)
      (run-made_with cs name (config_of created.1) created.0 (created-made_with name options s))
