-- ===== src/Resilience/Circuit.antt =====
-- packages/resilience/src/circuit-breaker.ts: `CircuitBreaker`. A synchronous section of the code is
-- one function that reads the clock once, as `now`; `execute` is cut at its `await` into `enter`
-- (up to the call of `fn`) and `record_call` (`record`, the `finally` block). Hooks that throw are ignored by the
-- code and hooks that call back into the breaker are left out; what is sent to the hook and to the
-- store is kept as two logs.
pub mod Admission
pub mod Window
pub mod Trace
pub mod Logs
mod Tests
use nexusts.Prelude.{
  ℕ, ◌+◌, ◌-◌, ◌*◌, Bool, true, false, not, ◌&&◌, List, [], ◌∷◌, ◌++◌, ltb, leb, ◌==◌,
  if◌then◌else◌, length, drop, filter, drop_while, count_if, Option, none, some,
}

pub data CircuitState : Type 0 where
  closed opened half_open : CircuitState

abbrev pub same_state : CircuitState → CircuitState → Bool
same_state closed closed = true
same_state opened opened = true
same_state half_open half_open = true
same_state _ _ = false

pub record Sample : Type 0 where
  pub ts : ℕ
  pub ok : Bool

-- The failure ratio `threshold` is the fraction `threshold_num / threshold_den`.
pub record Config : Type 0 where
  pub threshold_num : ℕ
  pub threshold_den : ℕ
  pub min_calls : ℕ
  pub timeout : ℕ
  pub half_open_after : ℕ
  pub window : ℕ

pub record Snapshot : Type 0 where
  pub state : CircuitState
  pub opened_at : ℕ
  pub failures : ℕ
  pub successes : ℕ
  pub updated_at : ℕ

-- `hooks` and `saved` list, oldest first, the calls of `_onStateChange` and of `saveSnapshot`.
pub record Circuit : Type 0 where
  pub state : CircuitState
  pub samples : List Sample
  pub opened_at : ℕ
  pub in_flight : ℕ
  pub allowed : ℕ
  pub has_store : Bool
  pub sync_interval : ℕ
  pub last_sync : ℕ
  pub last_remote_update : ℕ
  pub hooks : List (CircuitState × CircuitState)
  pub saved : List Snapshot

-- What `execute` does before it calls `fn`: it throws `CircuitOpenError` with the time of the next
-- try, or calls `fn` and remembers the state.
pub data Entry : Type 0 where
  circuit_open : ℕ → Entry
  admitted : CircuitState → Entry

pub record Metrics : Type 0 where
  pub state : CircuitState
  pub total_calls : ℕ
  pub failures : ℕ
  pub successes : ℕ
  pub opened_at : ℕ
  pub ms_until_half_open : ℕ

abbrev pub failed : Sample → Bool
failed s = not s.ok

-- `s.ts >= now - window`
abbrev pub is_fresh : ℕ → ℕ → Sample → Bool
is_fresh now window s = leb now (s.ts + window)

-- `s.ts < now - window`
abbrev pub is_stale : ℕ → ℕ → Sample → Bool
is_stale now window s = ltb (s.ts + window) now

-- `samples.slice(-n)`; `slice(-0)` is the whole array.
abbrev pub slice_last {ℓ} : {A : Type ℓ} → ℕ → List A → List A
slice_last n xs = if n == 0 then xs else drop (length xs - n) xs

module _ (cfg : Config) where
  unfoldable pub snapshot : ℕ → Circuit → Snapshot
  snapshot now c =
      let win = filter (is_fresh now cfg.window) c.samples in
      record {
        state = c.state;
        opened_at = c.opened_at;
        failures = count_if failed win;
        successes = length win - count_if failed win;
        updated_at = now;
      }

  -- `_saveToStore`, called when there is a store.
  unfoldable pub save_to_store : ℕ → Circuit → Circuit
  unfolding snapshot
  save_to_store now c =
      if c.has_store then record c { saved = c.saved ++ snapshot now c ∷ [] } else c

  unfoldable pub transition : ℕ → CircuitState → Circuit → Circuit
  unfolding save_to_store
  transition now to c =
      if same_state c.state to
      then c
      else save_to_store now (record c { state = to; hooks = c.hooks ++ (c.state, to) ∷ [] })

  -- The getter `currentState`, as the state that it leaves behind.
  unfoldable pub current_state : ℕ → Circuit → Circuit
  unfolding transition
  current_state now c =
      if same_state c.state opened && leb (c.opened_at + cfg.timeout) now
      then record (transition now half_open c) { allowed = cfg.half_open_after; in_flight = 0 }
      else c

  -- `_maybeSyncFromStore` up to its `await`: whether the store is asked.
  unfoldable pub ask_store : ℕ → Circuit → Circuit × Bool
  ask_store now c =
      if ltb now (c.last_sync + c.sync_interval)
      then (c, false)
      else (record c { last_sync = now }, true)

  -- `_maybeSyncFromStore` behind its `await`; `none` stands for no snapshot and for an error.
  unfoldable pub apply_snapshot : Option Snapshot → Circuit → Circuit
  apply_snapshot none c = c
  apply_snapshot (some snap) c =
      let half = same_state snap.state half_open in
      if leb snap.updated_at c.last_remote_update then c else record c {
        last_remote_update = snap.updated_at;
        state = snap.state;
        opened_at = snap.opened_at;
        allowed = if half then cfg.half_open_after else c.allowed;
        in_flight = if half then 0 else c.in_flight;
      }

  abbrev retry_at : Circuit → ℕ
  retry_at c = c.opened_at + cfg.timeout

  enter_as : CircuitState → Circuit → Circuit × Entry
  enter_as closed c = (c, admitted closed)
  enter_as opened c = (c, circuit_open (retry_at c))
  enter_as half_open c =
      if leb c.allowed c.in_flight
      then (c, circuit_open (retry_at c))
      else (record c { in_flight = c.in_flight + 1 }, admitted half_open)

  -- `execute` from `currentState` to the call of `fn`.
  unfoldable pub enter : ℕ → Circuit → Circuit × Entry
  unfolding enter_as current_state
  enter now c = let c' = current_state now c in enter_as c'.state c'

  -- The sample is added, and the front of the window dropped.
  unfoldable pub push_sample : ℕ → Bool → Circuit → Circuit
  push_sample now ok c = record c {
    samples = drop_while (is_stale now cfg.window) (c.samples ++ record { ts = now; ok = ok } ∷ []);
  }

  -- `failures / total >= threshold`
  abbrev pub over_threshold : List Sample → Bool
  over_threshold samples =
      leb (cfg.threshold_num * length samples) (count_if failed samples * cfg.threshold_den)

  unfoldable pub trip : ℕ → Circuit → Circuit
  unfolding transition
  trip now c = transition now opened (record c { opened_at = now })

  -- The branch of a call that was let in half-open.
  unfoldable pub settle_probe : ℕ → Bool → Circuit → Circuit
  unfolding transition trip
  settle_probe now ok c =
      let c' = record c { in_flight = c.in_flight - 1 } in
      if not ok
      then trip now c'
      else if c'.in_flight == 0
      then record (transition now closed c') { samples = [] }
      else c'

  -- The branch of a call that was let in closed.
  unfoldable pub settle_call : ℕ → Bool → Circuit → Circuit
  unfolding trip
  settle_call now false c =
      if leb cfg.min_calls (length c.samples) && over_threshold c.samples then trip now c else c
  settle_call now true c =
      if ltb (cfg.min_calls * 4) (length c.samples)
      then record c { samples = slice_last cfg.min_calls c.samples }
      else c

  unfoldable pub record_call : ℕ → Bool → CircuitState → Circuit → Circuit
  unfolding push_sample settle_probe settle_call
  record_call now ok half_open c = settle_probe now ok (push_sample now ok c)
  record_call now ok closed c = settle_call now ok (push_sample now ok c)
  record_call now ok opened c = settle_call now ok (push_sample now ok c)

  unfoldable pub force_open : ℕ → Circuit → Circuit
  unfolding transition
  force_open now c = transition now opened (record c { opened_at = now; in_flight = 0 })

  unfoldable pub force_close : ℕ → Circuit → Circuit
  unfolding transition
  force_close now c =
      transition now closed (record c { opened_at = 0; in_flight = 0; samples = [] })

  -- `metrics`: the ratio is `failures / total_calls`, 0 if there were none; the state is read by
  -- the getter.
  unfoldable pub metrics : ℕ → Circuit → Circuit × Metrics
  unfolding current_state
  metrics now c =
      let win = filter (is_fresh now cfg.window) c.samples in
      let c' = current_state now c in
      (
        c',
        record {
          state = c'.state;
          total_calls = length win;
          failures = count_if failed win;
          successes = length win - count_if failed win;
          opened_at = c.opened_at;
          ms_until_half_open =
              if same_state c.state opened then c.opened_at + cfg.timeout - now else 0;
        },
      )

unfoldable pub reset : Circuit → Circuit
reset c = record c { state = closed; opened_at = 0; in_flight = 0; allowed = 0; samples = [] }

unfoldable pub constructed : Bool → Circuit
constructed has_store = record {
  state = closed;
  samples = [];
  opened_at = 0;
  in_flight = 0;
  allowed = 0;
  has_store = has_store;
  sync_interval = 5000;
  last_sync = 0;
  last_remote_update = 0;
  hooks = [];
  saved = [];
}
