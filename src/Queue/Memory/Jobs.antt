-- ===== src/Queue/Memory/Jobs.antt =====
-- packages/queue/src/backends/memory.ts: the calls as one type, and where the jobs are.
use nexusts.Prelude.{
  ℕ, ◌+◌, ◌≤◌, ◌≡◌, Bool, not, List, [], ◌∷◌, Option, none, some, String, arith, length,
}
use nexusts.Prelude.JsMap
use nexusts.Queue.Memory.{
  AddOptions, PendingJob, Start, Backend, Outcome, add, process, stop, tick, settle,
}
use nexusts.Queue.Memory.Counts.{count_ref, find_job, count-append}

-- A call of the backend, a tick of its timer with what the handlers do in it, or the end of a running handler.
pub data Op : Type 0 where
  adding : ℕ → String → String → AddOptions → Op
  processing : String → Option ℕ → Op
  stopping : Op
  ticking : ℕ → (PendingJob → Start) → Op
  settling : ℕ → ℕ → Outcome → Op

-- The end of the handler of a job object, if it is running.
abbrev pub settle_ref : ℕ → ℕ → Outcome → Backend → Backend
settle_ref now r outcome s = elim (find_job r s.active) [
  | none ↦ s
  | some job ↦ settle now job outcome s
]

abbrev pub perform : Op → Backend → Backend
perform (adding now job_id name options) s = add now job_id name options s
perform (processing name concurrency) s = process name concurrency s
perform stopping s = stop s
perform (ticking now starts) s = tick now starts s
perform (settling now r outcome) s = settle_ref now r outcome s

unfoldable pub run : List Op → Backend → Backend
run [] s = s
run (op ∷ ops) s = run ops (perform op s)

abbrev pub places : ℕ → Backend → ℕ
places r s = count_ref r s.queue + count_ref r s.active

-- The counter of running jobs is right, and a job object stands in one place at most.
pub record IsAccounted (s : Backend) : Type 0 where
  pub counted : s.in_flight ≡ length s.active
  pub unique : (r : ℕ) → places r s ≤ 1
  pub fresh : (r : ℕ) → s.next_ref ≤ r → places r s ≡ 0

pub add-IsAccounted :
    (now : ℕ) (job_id name : String) (options : AddOptions) (s : Backend)
    → IsAccounted s
    → IsAccounted (add now job_id name options s)
unfolding add
add-IsAccounted now job_id name options s h = record {
  counted = h.counted;
  unique = λ r. rw (count-append r s.queue) (ground (arith, h.unique r, h.fresh r));
  fresh = λ r le. rw (count-append r s.queue) (ground (arith, h.fresh r));
}

-- Whether a job has no handler, so that a tick drops it.
abbrev pub is_dropped : Backend → PendingJob → Bool
is_dropped s job = not (JsMap.has job.name s.handlers)
