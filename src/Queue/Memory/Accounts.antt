-- ===== src/Queue/Memory/Accounts.antt =====
-- packages/queue/src/backends/memory.ts: the jobs of a backend over all its calls.
use nexusts.Prelude.{
  ℕ, refl, Bool, true, false, List, [], ◌∷◌, arith, if◌then◌else◌, filter, Option-cases, inl, inr,
}
use nexusts.Queue.Memory.{
  PendingJob, Start, Backend, constructed, process, stop, dispatch_all, is_due, tick,
}
use nexusts.Queue.Memory.Counts.{find_job, count-filter-le, find_job-count}
use nexusts.Queue.Memory.Jobs.{
  Op, adding, processing, stopping, ticking, settling, settle_ref, perform, run, IsAccounted,
  add-IsAccounted,
}
use nexusts.Queue.Memory.Endings.{settle-IsAccounted}
use nexusts.Queue.Memory.Dispatching.{dispatch_all-IsAccounted}

-- What holds of both branches holds of a test between them.
pub of_branches :
    (P : Backend → Type 0) (b : Bool) (s s' : Backend) → P s → P s' → P (if b then s else s')
of_branches P true s s' h h' = h
of_branches P false s s' h h' = h'

tick-IsAccounted :
    (now : ℕ) (starts : PendingJob → Start) (s : Backend)
    → IsAccounted s
    → IsAccounted (tick now starts s)
unfolding tick
tick-IsAccounted now starts s h =
    of_branches IsAccounted s.ticking (dispatch_all now starts (filter (is_due now) s.queue) s) s
      (dispatch_all-IsAccounted now starts (filter (is_due now) s.queue) s h
        (λ r. count-filter-le r (is_due now) s.queue))
      h

perform-IsAccounted : (op : Op) (s : Backend) → IsAccounted s → IsAccounted (perform op s)
unfolding process stop
perform-IsAccounted (adding now job_id name options) s h =
    add-IsAccounted now job_id name options s h
perform-IsAccounted (processing name concurrency) s h = record {
  counted = h.counted;
  unique = h.unique;
  fresh = h.fresh;
}
perform-IsAccounted stopping s h = record {
  counted = h.counted;
  unique = h.unique;
  fresh = h.fresh;
}
perform-IsAccounted (ticking now starts) s h = tick-IsAccounted now starts s h
perform-IsAccounted (settling now r outcome) s h = elim (Option-cases (find_job r s.active)) [
  | inl e ↦ rw (e, perform, settle_ref) h
  | inr (job, e) ↦
      let (eq, there) = find_job-count r s.active job e in
      rw (e, perform, settle_ref) (settle-IsAccounted now job outcome s h (rw eq there))
]

pub run-IsAccounted_from : (ops : List Op) (s : Backend) → IsAccounted s → IsAccounted (run ops s)
unfolding run
run-IsAccounted_from [] s h = h
run-IsAccounted_from (op ∷ ops) s h =
    run-IsAccounted_from ops (perform op s) (perform-IsAccounted op s h)

pub constructed-IsAccounted : IsAccounted constructed
constructed-IsAccounted = record { counted = refl; unique = λ r. omega arith; fresh = λ r le. refl }

-- After any calls, ticks and ends of handlers, in any order, the counter of running jobs is the
-- number of jobs that are running, and no job object is in two places or twice in one.
pub run-IsAccounted : (ops : List Op) → IsAccounted (run ops constructed)
run-IsAccounted ops = run-IsAccounted_from ops constructed constructed-IsAccounted
