-- ===== src/Queue/Memory/Retries.antt =====
-- packages/queue/src/backends/memory.ts: a job whose handler always throws.
use nexusts.Prelude.{
  ap, ℕ, zero, suc, ◌+◌, ◌≤◌, ◌≡◌, refl, ◌∙◌, Bool, true, false, List, [], ◌∷◌, ◌++◌, Option, some,
  String, arith, filter, count_if, length, get_or_else, filter-append, length-append,
}
use nexusts.Prelude.JsMap
use nexusts.Prelude.JsMap.{JsMap}
use nexusts.Queue.Memory.{
  AddOptions, PendingJob, Start, activate, add_all, Backend, QueueEvent, job_added, job_active,
  job_completed, job_failed, worker_started, worker_stopped, threw, constructed, add, process,
  run_job, dispatch, dispatch_all, tick, will_retry, failed, conclude, settle, retry_delay,
}
use nexusts.Queue.Memory.Jobs.{settle_ref}

-- A handler that does nothing before its `await`.
abbrev pub waits : PendingJob → Start
waits job = record { adds = []; throws = false }

-- The first job is dispatched when it is due, and its handler throws.
abbrev pub round : Backend → Backend
round s = elim s.queue [
  | [] ↦ s
  | ◌∷◌ job q ↦ settle_ref job.resolve_at job.ref threw (tick job.resolve_at waits s)
]

unfoldable pub rounds : ℕ → Backend → Backend
rounds zero s = s
rounds (suc n) s = rounds n (round s)

rounds-zero : (s : Backend) → rounds zero s ≡ s
unfolding rounds
rounds-zero s = refl

rounds-suc : (n : ℕ) (s : Backend) → rounds (suc n) s ≡ rounds n (round s)
unfolding rounds
rounds-suc n s = refl

abbrev pub is_retry : QueueEvent → Bool
is_retry (job_failed job_id name retry) = retry
is_retry (job_added job_id name) = false
is_retry (job_active job_id name attempts) = false
is_retry (job_completed job_id name) = false
is_retry (worker_started name concurrency) = false
is_retry (worker_stopped name) = false

-- A backend with one waiting job.
abbrev waiting : PendingJob → JsMap (Option ℕ) → ℕ → List QueueEvent → Backend
waiting job handlers next_ref events = record {
  queue = job ∷ [];
  handlers = handlers;
  active = [];
  in_flight = 0;
  next_ref = next_ref;
  ticking = true;
  events = events;
}

module _ (handlers : JsMap (Option ℕ)) (c : Option ℕ) (positive : 1 ≤ get_or_else c 1) where
  waiting-tick :
      (job : PendingJob) (next_ref : ℕ) (events : List QueueEvent)
      → JsMap.get job.name handlers ≡ some c
      → tick job.resolve_at waits (waiting job handlers next_ref events) ≡ record {
        queue = [];
        handlers = handlers;
        active = job ∷ [];
        in_flight = 1;
        next_ref = next_ref;
        ticking = true;
        events = events ++ job_active job.job_id job.name 1 ∷ [];
      }
  unfolding tick dispatch_all dispatch run_job activate add_all
  waiting-tick job next_ref events e = ground (arith, e, positive)

  -- The job that is queued again.
  abbrev again : PendingJob → ℕ → PendingJob
  again job next_ref = record job {
    ref = next_ref;
    resolve_at = job.resolve_at + retry_delay job.options;
  }

  waiting-settle :
      (job : PendingJob) (next_ref : ℕ) (events : List QueueEvent)
      → will_retry job.options ≡ true
      → settle_ref job.resolve_at job.ref threw (record {
        queue = [];
        handlers = handlers;
        active = job ∷ [];
        in_flight = 1;
        next_ref = next_ref;
        ticking = true;
        events = events;
      })
        ≡ waiting
            (again job next_ref)
            handlers
            (next_ref + 1)
            (events ++ job_failed job.job_id job.name true ∷ [])
  unfolding settle conclude failed
  waiting-settle job next_ref events e = ground (arith, e)

  waiting-round :
      (job : PendingJob) (next_ref : ℕ) (events : List QueueEvent)
      → JsMap.get job.name handlers ≡ some c
      → will_retry job.options ≡ true
      → round (waiting job handlers next_ref events)
        ≡ waiting (again job next_ref) handlers (next_ref + 1) (
            (events ++ job_active job.job_id job.name 1 ∷ [])
            ++ job_failed job.job_id job.name true ∷ [])
  waiting-round job next_ref events e retry =
      ap (settle_ref job.resolve_at job.ref threw) (waiting-tick job next_ref events e)
      ∙ waiting-settle job next_ref _ retry

  count-append :
      (p q : List QueueEvent)
      → count_if is_retry (p ++ q) ≡ count_if is_retry p + count_if is_retry q
  count-append p q =
      rw (filter-append is_retry p q) (length-append (filter is_retry p) (filter is_retry q))

  waiting-rounds :
      (n : ℕ) (job : PendingJob) (next_ref : ℕ) (events : List QueueEvent)
      → JsMap.get job.name handlers ≡ some c
      → will_retry job.options ≡ true
      → let s = rounds n (waiting job handlers next_ref events) in
        (length s.queue ≡ 1) × (count_if is_retry s.events ≡ count_if is_retry events + n)
  waiting-rounds zero job next_ref events e retry =
      rw (rounds-zero (waiting job handlers next_ref events)) (refl, omega arith)
  waiting-rounds (suc n) job next_ref events e retry =
      let events' =
        (events ++ job_active job.job_id job.name 1 ∷ [])
        ++ job_failed job.job_id job.name true ∷ [] in
      let (one, many) = waiting-rounds n (again job next_ref) (next_ref + 1) events' e retry in
      rw
        (rounds-suc n (waiting job handlers next_ref events)
          ∙ ap (rounds n) (waiting-round job next_ref events e retry))
        (
          one,
          omega (
            arith,
            many,
            count-append (events ++ job_active job.job_id job.name 1 ∷ [])
                (job_failed job.job_id job.name true ∷ []),
            count-append events (job_active job.job_id job.name 1 ∷ []),
          ),
        )

-- A job that is added with more than one attempt, and whose handler always throws, is retried for
-- ever: after any number of rounds it is waiting again, and as many retries have been announced.
pub rounds-retries :
    (n now : ℕ) (job_id name : String) (options : AddOptions) (c : Option ℕ)
    → 1 ≤ get_or_else c 1
    → will_retry options ≡ true
    → let s = rounds n (add now job_id name options (process name c constructed)) in
      (length s.queue ≡ 1) × (count_if is_retry s.events ≡ n)
unfolding add process
rounds-retries n now job_id name options c positive retry =
    let (one, many) =
      waiting-rounds (JsMap.set name c []) c positive n _ _ _ (JsMap.get-set_self name c [])
        retry in
    (one, many ∙ omega arith)
