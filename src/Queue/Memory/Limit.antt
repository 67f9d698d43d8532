-- ===== src/Queue/Memory/Limit.antt =====
-- packages/queue/src/backends/memory.ts: the bound on the running jobs.
use nexusts.Prelude.{
  ◌<◌, Bool-cases, All, ap, sym, ℕ, ◌≤◌, ◌≡◌, refl, ◌∙◌, List, [], ◌∷◌, Option, some, String, arith,
  filter, length, get_or_else, Option-cases, inl, inr,
}
use nexusts.Prelude.JsMap
use nexusts.Queue.Memory.{
  AddOptions, Start, activate, add_all, without, PendingJob, Backend, Outcome, returned,
  returned_failed, returned_status, threw, constructed, add, process, stop, run_job, dispatch,
  dispatch_all, is_due, tick, failed, conclude, settle,
}
use nexusts.Queue.Memory.Counts.{find_job}
use nexusts.Queue.Memory.Jobs.{
  Op, adding, processing, stopping, ticking, settling, settle_ref, perform, run,
}
use nexusts.Queue.Memory.Dispatching.{dispatch-cases}
use nexusts.Queue.Memory.Accounts.{run-IsAccounted, of_branches}

-- The call registers no worker with more than `m` places.
abbrev pub Within : ℕ → Op → Type 0
Within m (processing name concurrency) = get_or_else concurrency 1 ≤ m
Within m (adding now job_id name options) = Unit
Within m stopping = Unit
Within m (ticking now starts) = Unit
Within m (settling now r outcome) = Unit

record InLimit (m : ℕ) (s : Backend) : Type 0 where
  running : s.in_flight ≤ m
  workers :
      (name : String) (c : Option ℕ) → JsMap.get name s.handlers ≡ some c → get_or_else c 1 ≤ m

conclude-kept :
    (now : ℕ) (job : PendingJob) (outcome : Outcome) (s : Backend)
    → ((conclude now job outcome s).in_flight ≡ s.in_flight)
      × ((conclude now job outcome s).handlers ≡ s.handlers)
unfolding conclude failed
conclude-kept now job returned s = (refl, refl)
conclude-kept now job returned_status s = (refl, refl)
conclude-kept now job returned_failed s = (refl, refl)
conclude-kept now job threw s = (ground arith, ground arith)

settle-InLimit :
    (m now : ℕ) (job : PendingJob) (outcome : Outcome) (s : Backend)
    → InLimit m s
    → InLimit m (settle now job outcome s)
unfolding settle
settle-InLimit m now job outcome s h =
    let (i, w) = conclude-kept now job outcome s in
    record {
      running = omega (arith, i, h.running);
      workers = λ name c e. h.workers name c (ap (JsMap.get name) (sym w) ∙ e);
    }

add_all-kept :
    (now : ℕ) (adds : List (String × (String × AddOptions))) (s : Backend)
    → ((add_all now adds s).in_flight ≡ s.in_flight) × ((add_all now adds s).handlers ≡ s.handlers)
unfolding add_all add
add_all-kept now [] s = (refl, refl)
add_all-kept now ((job_id, (name, options)) ∷ adds) s =
    add_all-kept now adds (add now job_id name options s)

run_job-InLimit :
    (m now : ℕ) (start : Start) (job : PendingJob) (s : Backend)
    → InLimit m s
    → s.in_flight < m
    → InLimit m (run_job now start job s)
unfolding run_job activate
run_job-InLimit m now start job s h room =
    let u : Backend = add_all now start.adds (activate job s) in
    let (i, w) = add_all-kept now start.adds (activate job s) in
    let started : InLimit m u = record {
      running = omega (arith, i, room);
      workers = λ name c e. h.workers name c (ap (JsMap.get name) (sym w) ∙ e);
    } in
    elim (Bool-cases start.throws) [
      | inl e ↦ rw e (settle-InLimit m now job threw u started)
      | inr e ↦ rw e started
    ]

dispatch-InLimit :
    (m now : ℕ) (starts : PendingJob → Start) (job : PendingJob) (s : Backend)
    → InLimit m s
    → InLimit m (dispatch now starts job s)
dispatch-InLimit m now starts job s h = elim (dispatch-cases now starts job s) [
  | inl (e, d) ↦ rw e (record { running = h.running; workers = h.workers })
  | inr (inl (e, d)) ↦ rw e (record { running = h.running; workers = h.workers })
  | inr (inr (e, d, (c, there, free))) ↦ rw e (
      run_job-InLimit m now (starts job) job (record s { queue = without job s.queue })
        (record { running = h.running; workers = h.workers })
        (omega (arith, free, h.workers job.name c there)))
]

dispatch_all-InLimit :
    (m now : ℕ) (starts : PendingJob → Start) (jobs : List PendingJob) (s : Backend)
    → InLimit m s
    → InLimit m (dispatch_all now starts jobs s)
unfolding dispatch_all
dispatch_all-InLimit m now starts [] s h = h
dispatch_all-InLimit m now starts (job ∷ jobs) s h =
    dispatch_all-InLimit m now starts jobs (dispatch now starts job s)
      (dispatch-InLimit m now starts job s h)

process-InLimit :
    (m : ℕ) (name : String) (concurrency : Option ℕ) (s : Backend)
    → get_or_else concurrency 1 ≤ m
    → InLimit m s
    → InLimit m (process name concurrency s)
unfolding process
process-InLimit m name concurrency s le h = record {
  running = h.running;
  workers = λ j c e. ground (arith, JsMap.get-set name j concurrency s.handlers, h.workers j c);
}

perform-InLimit :
    (m : ℕ) (op : Op) (s : Backend) → Within m op → InLimit m s → InLimit m (perform op s)
unfolding add stop tick
perform-InLimit m (adding now job_id name options) s w h = record {
  running = h.running;
  workers = h.workers;
}
perform-InLimit m (processing name concurrency) s w h = process-InLimit m name concurrency s w h
perform-InLimit m stopping s w h = record { running = h.running; workers = h.workers }
perform-InLimit m (ticking now starts) s w h =
    of_branches (InLimit m) s.ticking (dispatch_all now starts (filter (is_due now) s.queue) s) s
      (dispatch_all-InLimit m now starts (filter (is_due now) s.queue) s h) h
perform-InLimit m (settling now r outcome) s w h = elim (Option-cases (find_job r s.active)) [
  | inl e ↦ rw (e, perform, settle_ref) h
  | inr (job, e) ↦ rw (e, perform, settle_ref) (settle-InLimit m now job outcome s h)
]

run-InLimit :
    (m : ℕ) (ops : List Op) (s : Backend) → All (Within m) ops → InLimit m s → InLimit m (run ops s)
unfolding run
run-InLimit m [] s w h = h
run-InLimit m (op ∷ ops) s (w, ws) h =
    run-InLimit m ops (perform op s) ws (perform-InLimit m op s w h)

-- If no worker is registered with more than `m` places, then at most `m` jobs of all names together
-- are running, after any calls.
pub run-in_flight-le :
    (m : ℕ) (ops : List Op) → All (Within m) ops → length (run ops constructed).active ≤ m
run-in_flight-le m ops w = omega (
  arith,
  (run-IsAccounted ops).counted,
  (run-InLimit m ops constructed w
      (record { running = omega arith; workers = λ name c e. ground arith })).running,
)
