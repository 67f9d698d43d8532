-- ===== src/Queue/Memory.antt =====
-- packages/queue/src/backends/memory.ts: `MemoryQueueBackend`. `run_job` calls the handler, which does
-- what its `Start` says before its first `await`, adds jobs and may throw; `settle` is what follows
-- that `await`, with the outcome as an argument. Other calls of a handler come after its `await`.
-- The clock and the random part of a job's id are arguments; `ref` tells the job objects apart, since
-- the source compares them by identity. The handlers are the names and concurrencies registered.
pub mod Counts
pub mod Flow
pub mod Jobs
pub mod Endings
pub mod Dispatching
pub mod Limit
pub mod Retries
pub mod Accounts
mod Tests
use nexusts.Prelude.{
  ℕ, zero, suc, ◌+◌, ◌-◌, ◌*◌, ◌^◌, Bool, true, false, not, List, [], ◌∷◌, ◌++◌, Option, none, some,
  String, leb, ltb, ◌==◌, if◌then◌else◌, filter, get_or_else, ◌||◌, length,
}
use nexusts.Prelude.JsMap
use nexusts.Prelude.JsMap.{JsMap}

pub data BackoffType : Type 0 where
  fixed : BackoffType
  exponential : BackoffType

pub record BackoffConfig : Type 0 where
  pub kind : BackoffType
  pub delay_ms : ℕ

pub record AddOptions : Type 0 where
  pub delay_seconds : Option ℕ
  pub attempts : Option ℕ
  pub backoff : Option BackoffConfig

pub record PendingJob : Type 0 where
  pub ref : ℕ
  pub job_id : String
  pub name : String
  pub options : AddOptions
  pub resolve_at : ℕ

pub data QueueEvent : Type 0 where
  job_added : String → String → QueueEvent
  job_active : String → String → ℕ → QueueEvent
  job_completed : String → String → QueueEvent
  job_failed : String → String → Bool → QueueEvent
  worker_started : String → ℕ → QueueEvent
  worker_stopped : String → QueueEvent

pub record Backend : Type 0 where
  pub queue : List PendingJob
  pub handlers : JsMap (Option ℕ)
  pub active : List PendingJob
  pub in_flight : ℕ
  pub next_ref : ℕ
  pub ticking : Bool
  pub events : List QueueEvent

-- How a handler ends: nothing or a value without a status, a status, or an exception.
pub data Outcome : Type 0 where
  returned : Outcome
  returned_failed : Outcome
  returned_status : Outcome
  threw : Outcome

abbrev pub constructed : Backend
constructed = record {
  queue = [];
  handlers = [];
  active = [];
  in_flight = 0;
  next_ref = 0;
  ticking = true;
  events = [];
}

abbrev pub emit : QueueEvent → Backend → Backend
emit e s = record s { events = s.events ++ e ∷ [] }

unfoldable pub add : ℕ → String → String → AddOptions → Backend → Backend
add now job_id name options s = emit (job_added job_id name) (record s {
  queue =
      s.queue
      ++ (record {
        ref = s.next_ref;
        job_id = job_id;
        name = name;
        options = options;
        resolve_at = now + get_or_else options.delay_seconds 0 * 1000;
      })
        ∷ [];
  next_ref = s.next_ref + 1;
})

unfoldable pub process : String → Option ℕ → Backend → Backend
process name concurrency s =
    emit (worker_started name (get_or_else concurrency 1))
      (record s { handlers = JsMap.set name concurrency s.handlers })

abbrev pub stop_events : List String → List QueueEvent
stop_events [] = []
stop_events (name ∷ names) = worker_stopped name ∷ stop_events names

unfoldable pub stop : Backend → Backend
stop s = record s { events = s.events ++ stop_events (JsMap.keys s.handlers); ticking = false }

-- The test on which the loop of `drain` ends.
abbrev pub is_drained : Backend → Bool
is_drained s = not (ltb 0 s.in_flight || ltb 0 (length s.queue))

-- `queue.filter((j) => j !== job)`.
abbrev pub without : PendingJob → List PendingJob → List PendingJob
without job q = filter (λ j. not (j.ref == job.ref)) q

-- `attempts` is always 1.
abbrev pub retry_delay : AddOptions → ℕ
retry_delay options = elim options.backoff [
  | none ↦ 1000
  | some b ↦ elim b.kind [ exponential ↦ b.delay_ms * 2 ^ 1 | fixed ↦ b.delay_ms * 1 ]
]

abbrev pub will_retry : AddOptions → Bool
will_retry options = ltb 1 (get_or_else options.attempts 1)

-- The `catch` of `run_job`.
unfoldable pub failed : ℕ → PendingJob → Backend → Backend
failed now job s =
    let s' = emit (job_failed job.job_id job.name (will_retry job.options)) s in
    if will_retry job.options
    then record s' {
      queue =
          s.queue
          ++ (record job { ref = s.next_ref; resolve_at = now + retry_delay job.options }) ∷ [];
      next_ref = s.next_ref + 1;
    }
    else s'

-- What `run_job` does with the outcome.
unfoldable pub conclude : ℕ → PendingJob → Outcome → Backend → Backend
unfolding failed
conclude now job returned s = emit (job_completed job.job_id job.name) s
conclude now job returned_status s = emit (job_completed job.job_id job.name) s
conclude now job returned_failed s = emit (job_failed job.job_id job.name false) s
conclude now job threw s = failed now job s

-- The `finally` of `run_job` after it.
unfoldable pub settle : ℕ → PendingJob → Outcome → Backend → Backend
unfolding conclude
settle now job outcome s =
    let s' = conclude now job outcome s in
    record s' { active = without job s'.active; in_flight = s'.in_flight - 1 }

-- What a handler does before its first `await`: the jobs that it adds, and whether it throws.
pub record Start : Type 0 where
  pub adds : List (String × (String × AddOptions))
  pub throws : Bool

unfoldable pub add_all : ℕ → List (String × (String × AddOptions)) → Backend → Backend
unfolding add
add_all now [] s = s
add_all now ((job_id, (name, options)) ∷ adds) s = add_all now adds (add now job_id name options s)

-- `run_job` up to its `await`; it runs to its end if the handler throws at once.
unfoldable pub activate : PendingJob → Backend → Backend
activate job s =
    emit (job_active job.job_id job.name 1)
      (record s { active = s.active ++ job ∷ []; in_flight = s.in_flight + 1 })

unfoldable pub run_job : ℕ → Start → PendingJob → Backend → Backend
unfolding activate add_all settle
run_job now start job s =
    let s' = add_all now start.adds (activate job s) in
    if start.throws then settle now job threw s' else s'

-- The body of the loop of `tick`: a due job is taken out; without a handler it is dropped, and at the
-- limit it goes back to the front.
unfoldable pub dispatch : ℕ → (PendingJob → Start) → PendingJob → Backend → Backend
dispatch now starts job s = elim (JsMap.get job.name s.handlers) [
  | none ↦ record s { queue = without job s.queue }
  | some concurrency ↦
      if leb (get_or_else concurrency 1) s.in_flight
      then record s { queue = job ∷ without job s.queue }
      else run_job now (starts job) job (record s { queue = without job s.queue })
]

unfoldable pub dispatch_all : ℕ → (PendingJob → Start) → List PendingJob → Backend → Backend
dispatch_all now starts [] s = s
dispatch_all now starts (job ∷ jobs) s = dispatch_all now starts jobs (dispatch now starts job s)

abbrev pub is_due : ℕ → PendingJob → Bool
is_due now job = leb job.resolve_at now

unfoldable pub tick : ℕ → (PendingJob → Start) → Backend → Backend
unfolding dispatch_all
tick now starts s = if s.ticking then dispatch_all now starts (filter (is_due now) s.queue) s else s
