-- ===== src/Resilience/Circuit/Logs.antt =====
-- packages/resilience/src/circuit-breaker.ts: what the samples and the hook log hold in every
-- reachable state.
use nexusts.Prelude.{
  ℕ, ◌-◌, ◌≤◌, ◌≡◌, refl, ◌≢◌, ◌⊎◌, inl, inr, Bool, true, false, List, [], ◌∷◌, ◌++◌, arith, length,
  All-drop, Option, none, some, ◌==◌, Bool-cases,
}
use nexusts.Resilience.Circuit.{
  CircuitState, closed, opened, half_open, Config, Circuit, Sample, Snapshot, transition,
  current_state, ask_store, apply_snapshot, enter, push_sample, settle_probe, settle_call,
  record_call, force_open, force_close, reset, metrics, constructed, slice_last,
}
use nexusts.Resilience.Circuit.Window.{IsLogged, IsOrdered-drop, push_sample-IsLogged, All-later}
use nexusts.Resilience.Circuit.Trace.{
  World, Step, entering, ending, asking, answering, reading, opening, closing, resetting, Reach,
  here, next, start,
}

IsLogged-nil : (clock : ℕ) → IsLogged clock []
IsLogged-nil clock = record { ordered = tt; past = tt }

IsLogged-later :
    (clock now : ℕ) (xs : List Sample) → clock ≤ now → IsLogged clock xs → IsLogged now xs
IsLogged-later clock now xs h l = record {
  ordered = l.ordered;
  past = All-later clock now xs h l.past;
}

slice_last-IsLogged :
    (clock n : ℕ) (xs : List Sample) → IsLogged clock xs → IsLogged clock (slice_last n xs)
slice_last-IsLogged clock n xs l = elim (Bool-cases (n == 0)) [
  | inl e ↦ rw e l
  | inr e ↦ rw e (record {
    ordered = IsOrdered-drop 0 (length xs - n) xs l.ordered;
    past = All-drop (λ s. s.ts ≤ clock) (length xs - n) xs l.past;
  })
]

module _ (cfg : Config) where
  transition-samples :
      (now : ℕ) (to : CircuitState) (c : Circuit) → (transition cfg now to c).samples ≡ c.samples
  unfolding transition
  transition-samples now to c = ground arith

  current_state-samples : (now : ℕ) (c : Circuit) → (current_state cfg now c).samples ≡ c.samples
  unfolding current_state
  current_state-samples now c = ground arith

  enter-samples : (now : ℕ) (c : Circuit) → (enter cfg now c).0.samples ≡ c.samples
  unfolding enter
  enter-samples now c = ground arith

  metrics-samples : (now : ℕ) (c : Circuit) → (metrics cfg now c).0.samples ≡ c.samples
  unfolding metrics
  metrics-samples now c = ground arith

  store-samples :
      (now : ℕ) (answer : Option Snapshot) (c : Circuit)
      → ((ask_store cfg now c).0.samples ≡ c.samples)
        × ((apply_snapshot cfg answer c).samples ≡ c.samples)
  unfolding ask_store apply_snapshot
  store-samples now none c = (ground arith, refl)
  store-samples now (some snap) c = (ground arith, ground arith)

  force_open-samples : (now : ℕ) (c : Circuit) → (force_open cfg now c).samples ≡ c.samples
  unfolding force_open
  force_open-samples now c = ground arith

  force_close-samples : (now : ℕ) (c : Circuit) → (force_close cfg now c).samples ≡ []
  unfolding force_close
  force_close-samples now c = ground arith

  settle_probe-IsLogged :
      (clock now : ℕ) (ok : Bool) (c : Circuit)
      → IsLogged clock c.samples
      → IsLogged clock (settle_probe cfg now ok c).samples
  unfolding settle_probe
  settle_probe-IsLogged clock now ok c l = ground (arith, IsLogged-nil clock)

  settle_call-IsLogged :
      (clock now : ℕ) (ok : Bool) (c : Circuit)
      → IsLogged clock c.samples
      → IsLogged clock (settle_call cfg now ok c).samples
  unfolding settle_call
  settle_call-IsLogged clock now true c l =
      ground (arith, slice_last-IsLogged clock cfg.min_calls c.samples l)
  settle_call-IsLogged clock now false c l = ground arith

  record_call-IsLogged :
      (clock now : ℕ) (ok : Bool) (s : CircuitState) (c : Circuit)
      → clock ≤ now
      → IsLogged clock c.samples
      → IsLogged now (record_call cfg now ok s c).samples
  unfolding record_call
  record_call-IsLogged clock now ok half_open c h l =
      settle_probe-IsLogged now now ok (push_sample cfg now ok c)
        (push_sample-IsLogged cfg clock now ok c h l)
  record_call-IsLogged clock now ok closed c h l =
      settle_call-IsLogged now now ok (push_sample cfg now ok c)
        (push_sample-IsLogged cfg clock now ok c h l)
  record_call-IsLogged clock now ok opened c h l =
      settle_call-IsLogged now now ok (push_sample cfg now ok c)
        (push_sample-IsLogged cfg clock now ok c h l)

  Step-IsLogged :
      {u v : World}
      → Step cfg u v
      → IsLogged u.clock u.circuit.samples
      → IsLogged v.clock v.circuit.samples
  Step-IsLogged (entering c calls clock now h) l =
      rw (enter-samples now c) (IsLogged-later clock now c.samples h l)
  Step-IsLogged (ending c before after s ok clock now h) l =
      record_call-IsLogged clock now ok s c h l
  Step-IsLogged (asking c calls clock now h) l =
      rw ((store-samples now none c).0) (IsLogged-later clock now c.samples h l)
  Step-IsLogged (answering c calls clock answer) l = rw ((store-samples 0 answer c).1) l
  Step-IsLogged (reading c calls clock now h) l =
      rw (metrics-samples now c) (IsLogged-later clock now c.samples h l)
  Step-IsLogged (opening c calls clock now h) l =
      rw (force_open-samples now c) (IsLogged-later clock now c.samples h l)
  Step-IsLogged (closing c calls clock now h) l = rw (force_close-samples now c) (IsLogged-nil now)
  Step-IsLogged (resetting c calls clock) l = unfold reset in IsLogged-nil clock

  -- In every reachable state the samples stand in the order of their times, and none is later than
  -- the clock.
  pub Reach-IsLogged :
      (has_store : Bool) {w : World}
      → Reach cfg (start has_store) w
      → IsLogged w.clock w.circuit.samples
  Reach-IsLogged has_store here = unfold constructed in IsLogged-nil 0
  Reach-IsLogged has_store (next r st) = Step-IsLogged st (Reach-IsLogged has_store r)

-- The log is a walk from one state to another: each entry starts where the one before ended, and
-- moves.
abbrev pub IsWalk : CircuitState → List (CircuitState × CircuitState) → CircuitState → Type 0
IsWalk s [] t = s ≡ t
IsWalk s ((a, b) ∷ log) t = (s ≡ a) × (a ≢ b) × IsWalk b log t

IsWalk-snoc :
    (s t u : CircuitState) (log : List (CircuitState × CircuitState))
    → IsWalk s log t
    → t ≢ u
    → IsWalk s (log ++ (t, u) ∷ []) u
IsWalk-snoc s t u [] w n = (w, n, refl)
IsWalk-snoc s t u ((a, b) ∷ log) (p, q, w) n = (p, q, IsWalk-snoc b t u log w n)

abbrev pub IsWatched : Circuit → Type 0
IsWatched c = IsWalk closed c.hooks c.state

-- One section of the code moves at most once, and logs the move.
abbrev pub Moves : Circuit → Circuit → Type 0
Moves c d =
    ((d.state ≡ c.state) × (d.hooks ≡ c.hooks))
    ⊎ ((c.state ≢ d.state) × (d.hooks ≡ c.hooks ++ (c.state, d.state) ∷ []))

Moves-IsWatched : (c d : Circuit) → Moves c d → IsWatched c → IsWatched d
Moves-IsWatched c d (inl (s, h)) w = rw (s, h) w
Moves-IsWatched c d (inr (n, h)) w = rw h (IsWalk-snoc closed c.state d.state c.hooks w n)

module _ (cfg : Config) where
  enter-Moves : (now : ℕ) (c : Circuit) → Moves c (enter cfg now c).0
  unfolding enter
  enter-Moves now c = ground arith

  record_call-Moves :
      (now : ℕ) (ok : Bool) (s : CircuitState) (c : Circuit) → Moves c (record_call cfg now ok s c)
  unfolding record_call
  record_call-Moves now ok half_open c = ground arith
  record_call-Moves now true s c = ground arith
  record_call-Moves now false s c = ground arith

  metrics-Moves : (now : ℕ) (c : Circuit) → Moves c (metrics cfg now c).0
  unfolding metrics
  metrics-Moves now c = ground arith

  force_open-Moves : (now : ℕ) (c : Circuit) → Moves c (force_open cfg now c)
  unfolding force_open
  force_open-Moves now c = ground arith

  force_close-Moves : (now : ℕ) (c : Circuit) → Moves c (force_close cfg now c)
  unfolding force_close
  force_close-Moves now c = ground arith

  ask_store-Moves : (now : ℕ) (c : Circuit) → Moves c (ask_store cfg now c).0
  unfolding ask_store
  ask_store-Moves now c = ground arith

  -- Steps that do not set the state behind the hooks' back, as `reset` and a snapshot do.
  abbrev pub IsHooked : {u v : World} → Step cfg u v → Type 0
  IsHooked (answering c calls clock answer) = answer ≡ none
  IsHooked (resetting c calls clock) = ⊥
  IsHooked _ = Unit

  abbrev pub AllHooked : {u v : World} → Reach cfg u v → Type 0
  AllHooked here = Unit
  AllHooked (next r st) = AllHooked r × IsHooked st

  apply_none-IsWatched : (c : Circuit) → IsWatched c → IsWatched (apply_snapshot cfg none c)
  unfolding apply_snapshot
  apply_none-IsWatched c w = w

  Step-IsWatched :
      {u v : World} (st : Step cfg u v) → IsHooked st → IsWatched u.circuit → IsWatched v.circuit
  Step-IsWatched (entering c calls clock now h) k w =
      Moves-IsWatched c (enter cfg now c).0 (enter-Moves now c) w
  Step-IsWatched (ending c before after s ok clock now h) k w =
      Moves-IsWatched c (record_call cfg now ok s c) (record_call-Moves now ok s c) w
  Step-IsWatched (asking c calls clock now h) k w =
      Moves-IsWatched c (ask_store cfg now c).0 (ask_store-Moves now c) w
  Step-IsWatched (answering c calls clock answer) k w = rw k (apply_none-IsWatched c w)
  Step-IsWatched (reading c calls clock now h) k w =
      Moves-IsWatched c (metrics cfg now c).0 (metrics-Moves now c) w
  Step-IsWatched (opening c calls clock now h) k w =
      Moves-IsWatched c (force_open cfg now c) (force_open-Moves now c) w
  Step-IsWatched (closing c calls clock now h) k w =
      Moves-IsWatched c (force_close cfg now c) (force_close-Moves now c) w
  Step-IsWatched (resetting c calls clock) k w = absurd k

  -- As long as nothing resets the circuit and the store answers with no snapshot, what the hook
  -- `onStateChange` was told is a walk without gaps from closed to the current state.
  pub Reach-IsWatched :
      (has_store : Bool) {w : World} (r : Reach cfg (start has_store) w)
      → AllHooked r
      → IsWatched w.circuit
  Reach-IsWatched has_store here h = unfold constructed in refl
  Reach-IsWatched has_store (next r st) (h, k) = Step-IsWatched st k (Reach-IsWatched has_store r h)
