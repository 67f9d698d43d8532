-- ===== src/Resilience/Service/Tests.antt =====
-- packages/resilience/src/resilience.service.ts: runs of the registry, and its theorem at an input.
use nexusts.Prelude.{◌≡◌, refl, false, List, [], ◌∷◌, none, some}
use nexusts.Resilience.Circuit.{reset}
use nexusts.Resilience.Service.{
  CircuitOptions, Service, constructed, get_or_create_circuit, get_or_create_bulkhead,
}
use nexusts.Resilience.Service.Registry.{
  Call, asking_circuit, setting_store, listing, using_circuit, config_of,
}

abbrev unset : CircuitOptions
unset = record {
  threshold = none;
  min_calls = none;
  timeout = none;
  half_open_after = none;
  window = none;
}

abbrev patient : CircuitOptions
patient = record unset { timeout = some 90000 }

abbrev service : Service
service =
    constructed
      (record {
        attempts = none;
        initial_delay = none;
        max_delay = none;
        backoff = none;
        multiplier = none;
      })
      unset (record { max_concurrent = some 3; max_queued = none }) none false

merged : config_of (get_or_create_circuit "db" patient service).1 ≡ record {
  threshold_num = 1;
  threshold_den = 2;
  min_calls = 5;
  timeout = 90000;
  half_open_after = 1;
  window = 60000;
}
unfolding get_or_create_circuit
merged = refl

limits :
    (get_or_create_bulkhead "db"
      (record { max_concurrent = none; max_queued = none })
      service).1.max_concurrent
    ≡ 3
unfolding get_or_create_bulkhead
limits = refl

abbrev calls : List Call
calls =
    asking_circuit "mail" unset
    ∷ setting_store
    ∷ listing 100
    ∷ using_circuit "db" (λ cfg c. reset c)
    ∷ []
