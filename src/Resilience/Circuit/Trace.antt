-- ===== src/Resilience/Circuit/Trace.antt =====
-- packages/resilience/src/circuit-breaker.ts: the breaker under any interleaving of calls that
-- start and end, administration and answers of the store, as a step relation.
use nexusts.Prelude.{ℕ, ◌≤◌, ◌≡◌, Bool, true, false, List, [], ◌∷◌, ◌++◌, arith, Option, none, some}
use nexusts.Resilience.Circuit.{
  CircuitState, half_open, Config, Circuit, Snapshot, Entry, circuit_open, admitted, current_state,
  ask_store, apply_snapshot, enter, record_call, force_open, force_close, reset, metrics,
  constructed,
}

-- `calls` holds, for each call in flight, the state in which it was let in.
pub record World : Type 0 where
  pub circuit : Circuit
  pub calls : List CircuitState
  pub clock : ℕ

abbrev pub start_call : Entry → List CircuitState → List CircuitState
start_call (circuit_open at) calls = calls
start_call (admitted s) calls = s ∷ calls

-- One synchronous section of the code, at a time that is not before the clock's.
pub data Step (cfg : Config) : World → World → Type 0 where
  entering :
      (c : Circuit) (calls : List CircuitState) (clock now : ℕ)
      → clock ≤ now
      → Step cfg
          (record { circuit = c; calls = calls; clock = clock })
          (record {
            circuit = (enter cfg now c).0;
            calls = start_call (enter cfg now c).1 calls;
            clock = now;
          })
  ending :
      (c : Circuit) (before after : List CircuitState) (s : CircuitState) (ok : Bool)
      (clock now : ℕ)
      → clock ≤ now
      → Step cfg
          (record { circuit = c; calls = before ++ (s ∷ after); clock = clock })
          (record { circuit = record_call cfg now ok s c; calls = before ++ after; clock = now })
  asking :
      (c : Circuit) (calls : List CircuitState) (clock now : ℕ)
      → clock ≤ now
      → Step cfg
          (record { circuit = c; calls = calls; clock = clock })
          (record { circuit = (ask_store cfg now c).0; calls = calls; clock = now })
  answering :
      (c : Circuit) (calls : List CircuitState) (clock : ℕ) (answer : Option Snapshot)
      → Step cfg
          (record { circuit = c; calls = calls; clock = clock })
          (record { circuit = apply_snapshot cfg answer c; calls = calls; clock = clock })
  reading :
      (c : Circuit) (calls : List CircuitState) (clock now : ℕ)
      → clock ≤ now
      → Step cfg
          (record { circuit = c; calls = calls; clock = clock })
          (record { circuit = (metrics cfg now c).0; calls = calls; clock = now })
  opening :
      (c : Circuit) (calls : List CircuitState) (clock now : ℕ)
      → clock ≤ now
      → Step cfg
          (record { circuit = c; calls = calls; clock = clock })
          (record { circuit = force_open cfg now c; calls = calls; clock = now })
  closing :
      (c : Circuit) (calls : List CircuitState) (clock now : ℕ)
      → clock ≤ now
      → Step cfg
          (record { circuit = c; calls = calls; clock = clock })
          (record { circuit = force_close cfg now c; calls = calls; clock = now })
  resetting :
      (c : Circuit) (calls : List CircuitState) (clock : ℕ)
      → Step cfg
          (record { circuit = c; calls = calls; clock = clock })
          (record { circuit = reset c; calls = calls; clock = clock })

pub data Reach (cfg : Config) (w : World) : World → Type 0 where
  here : Reach cfg w w
  next : {u v : World} → Reach cfg w u → Step cfg u v → Reach cfg w v

abbrev pub start : Bool → World
start has_store = record { circuit = constructed has_store; calls = []; clock = 0 }

-- The probes that the half-open state counts stay within what is configured.
pub record IsCapped (cfg : Config) (c : Circuit) : Type 0 where
  pub within : c.in_flight ≤ c.allowed
  pub configured : c.allowed ≤ cfg.half_open_after
  pub granted : c.state ≡ half_open → c.allowed ≡ cfg.half_open_after

module _ (cfg : Config) where
  current_state-IsCapped :
      (now : ℕ) (c : Circuit) → IsCapped cfg c → IsCapped cfg (current_state cfg now c)
  unfolding current_state
  current_state-IsCapped now c v = ground arith

  enter-IsCapped : (now : ℕ) (c : Circuit) → IsCapped cfg c → IsCapped cfg (enter cfg now c).0
  unfolding enter
  enter-IsCapped now c v = ground arith

  record_call-IsCapped :
      (now : ℕ) (ok : Bool) (s : CircuitState) (c : Circuit)
      → IsCapped cfg c
      → IsCapped cfg (record_call cfg now ok s c)
  unfolding record_call
  record_call-IsCapped now ok half_open c v = ground arith
  record_call-IsCapped now true s c v = ground arith
  record_call-IsCapped now false s c v = ground arith

  apply_snapshot-IsCapped :
      (answer : Option Snapshot) (c : Circuit)
      → IsCapped cfg c
      → IsCapped cfg (apply_snapshot cfg answer c)
  unfolding apply_snapshot
  apply_snapshot-IsCapped none c v = v
  apply_snapshot-IsCapped (some snap) c v = ground arith

  ask_store-IsCapped :
      (now : ℕ) (c : Circuit) → IsCapped cfg c → IsCapped cfg (ask_store cfg now c).0
  unfolding ask_store
  ask_store-IsCapped now c v = ground arith

  metrics-IsCapped : (now : ℕ) (c : Circuit) → IsCapped cfg c → IsCapped cfg (metrics cfg now c).0
  unfolding metrics
  metrics-IsCapped now c v = ground arith

  admin-IsCapped :
      (now : ℕ) (c : Circuit)
      → IsCapped cfg c
      → IsCapped cfg (force_open cfg now c)
        × IsCapped cfg (force_close cfg now c)
        × IsCapped cfg (reset c)
  unfolding force_open force_close reset
  admin-IsCapped now c v = (ground arith, ground arith, ground arith)

  Step-IsCapped : {u v : World} → Step cfg u v → IsCapped cfg u.circuit → IsCapped cfg v.circuit
  Step-IsCapped (entering c calls clock now h) k = enter-IsCapped now c k
  Step-IsCapped (ending c before after s ok clock now h) k = record_call-IsCapped now ok s c k
  Step-IsCapped (asking c calls clock now h) k = ask_store-IsCapped now c k
  Step-IsCapped (answering c calls clock answer) k = apply_snapshot-IsCapped answer c k
  Step-IsCapped (reading c calls clock now h) k = metrics-IsCapped now c k
  Step-IsCapped (opening c calls clock now h) k = (admin-IsCapped now c k).0
  Step-IsCapped (closing c calls clock now h) k = (admin-IsCapped now c k).1
  Step-IsCapped (resetting c calls clock) k = (admin-IsCapped 0 c k).2

  constructed-IsCapped : (has_store : Bool) → IsCapped cfg (constructed has_store)
  unfolding constructed
  constructed-IsCapped has_store = ground arith

  -- In every reachable state at most the granted number of probes is counted as in flight, never
  -- more than `halfOpenAfter` are granted, and a half-open circuit grants just as many.
  pub Reach-IsCapped :
      (has_store : Bool) {w : World} → Reach cfg (start has_store) w → IsCapped cfg w.circuit
  Reach-IsCapped has_store here = constructed-IsCapped has_store
  Reach-IsCapped has_store (next r st) = Step-IsCapped st (Reach-IsCapped has_store r)
