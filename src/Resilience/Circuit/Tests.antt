-- ===== src/Resilience/Circuit/Tests.antt =====
-- packages/resilience/src/circuit-breaker.ts: runs of the breaker, and its theorems at inputs.
use nexusts.Prelude.{ℕ, ◌≡◌, refl, ◌↔◌, Bool, true, false, [], ◌∷◌, arith}
use nexusts.Resilience.Circuit.{
  closed, opened, half_open, Config, Circuit, Sample, circuit_open, admitted, enter, record_call,
  constructed, metrics,
}
use nexusts.Resilience.Circuit.Admission
use nexusts.Resilience.Circuit.Admission.{LetIn, Ended, enter_all}
use nexusts.Resilience.Circuit.Window
use nexusts.Resilience.Circuit.Window.{IsLogged, Trips}
use nexusts.Resilience.Circuit.Trace
use nexusts.Resilience.Circuit.Trace.{
  World, Step, Reach, here, next, start, entering, ending, IsCapped,
}

-- Half the calls of the last 60 seconds, of at least two.
abbrev config : Config
config = record {
  threshold_num = 1;
  threshold_den = 2;
  min_calls = 2;
  timeout = 30000;
  half_open_after = 2;
  window = 60000;
}

abbrev sample : ℕ → Bool → Sample
sample ts ok = record { ts = ts; ok = ok }

abbrev failing : Circuit
failing = record {
  state = closed;
  samples = sample 100 false ∷ [];
  opened_at = 0;
  in_flight = 0;
  allowed = 0;
  has_store = false;
  sync_interval = 5000;
  last_sync = 0;
  last_remote_update = 0;
  hooks = [];
  saved = [];
}

abbrev tripped : Circuit
tripped = record failing {
  state = opened;
  samples = sample 100 false ∷ sample 200 false ∷ [];
  opened_at = 200;
  hooks = (closed, opened) ∷ [];
}

abbrev probing : Circuit
probing = record tripped { state = half_open; in_flight = 2; allowed = 2 }

trips : record_call config 200 false closed failing ≡ tripped
unfolding record_call
trips = refl

recovers : enter config 30200 tripped ≡ (
  record tripped {
    state = half_open;
    allowed = 2;
    in_flight = 1;
    hooks = (closed, opened) ∷ (opened, half_open) ∷ [];
  },
  admitted half_open,
)
unfolding enter
recovers = refl

stays_shut : (enter config 30199 tripped).1 ≡ circuit_open 30200
unfolding enter
stays_shut = refl

probe_closes :
    (record_call config 40000 true half_open (record probing { in_flight = 1 })).state ≡ closed
unfolding record_call
probe_closes = refl

counts : (metrics config 60150 tripped).1.failures ≡ 1
unfolding metrics
counts = refl

enter_iff_example :
    ((enter config 30200 tripped).1 ≡ admitted half_open) ↔ LetIn config 30200 tripped half_open
enter_iff_example = Admission.enter_iff config 30200 tripped half_open

abbrev ended : ℕ → Bool → Ended
ended ts ok = record { ts = ts; ok = ok }

record_call-opened_iff_example :
    ((record_call config 200 false closed failing).state ≡ opened) ↔ Trips config 200 false failing
record_call-opened_iff_example =
    Window.record_call-opened_iff config 100 200 false failing (omega arith) (omega arith) refl

abbrev called : World
called = record {
  circuit = (enter config 5 (constructed false)).0;
  calls = Trace.start_call (enter config 5 (constructed false)).1 [];
  clock = 5;
}

abbrev called_Reach : Reach config (start false) called
called_Reach = next here (entering (constructed false) [] 0 5 (omega arith))

Reach-IsCapped_example : IsCapped config called.circuit
Reach-IsCapped_example = Trace.Reach-IsCapped config false called_Reach
