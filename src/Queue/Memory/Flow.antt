-- ===== src/Queue/Memory/Flow.antt =====
-- packages/queue/src/backends/memory.ts: what a tick does with each job object.
use nexusts.Prelude.{
  ap, ℕ, ◌+◌, ◌≤◌, ◌<◌, ◌≡◌, refl, Option, Bool, true, false, not, ◌&&◌, ◌==◌, List, [], ◌∷◌, arith,
  if◌then◌else◌, filter, count_if, inl, inr,
}
use nexusts.Prelude.JsMap
use nexusts.Prelude.JsMap.{JsMap}
use nexusts.Queue.Memory.{
  PendingJob, Start, Backend, constructed, run_job, dispatch, dispatch_all, is_due, tick, without,
}
use nexusts.Queue.Memory.Counts.{count_ref, count-without, count-filter-le}
use nexusts.Queue.Memory.Jobs.{Op, run, IsAccounted, is_dropped, places}
use nexusts.Queue.Memory.Dispatching.{
  AllQueued, Started, run_job-Started, dispatch-cases, dispatch-IsAccounted,
}
use nexusts.Queue.Memory.Accounts.{run-IsAccounted}

-- Whether the job is the object, and has no handler or a handler that throws at once.
abbrev pub drops : ℕ → Backend → PendingJob → Bool
drops r s job = job.ref == r && is_dropped s job

abbrev pub fails : ℕ → (PendingJob → Start) → PendingJob → Bool
fails r starts job = job.ref == r && (starts job).throws

-- The places of an object after and before, where `dropped` says whether it was dropped and `failed`
-- whether its handler may have thrown.
abbrev pub Conserved : (after dropped failed before : ℕ) → Type 0
Conserved after dropped failed before =
    (after + dropped ≤ before) × (failed ≡ 0 → after + dropped ≡ before)

module _ (now r : ℕ) (starts : PendingJob → Start) where
  dispatch-Conserved :
      (job : PendingJob) (s : Backend)
      → IsAccounted s
      → 1 ≤ count_ref job.ref s.queue
      → r < s.next_ref
      → Conserved
          (places r (dispatch now starts job s))
          (if drops r s job then 1 else 0)
          (if fails r starts job then 1 else 0)
          (places r s)
  dispatch-Conserved job s h there old =
      let s' : Backend = record s { queue = without job s.queue } in
      let unique : places r s ≤ 1 = h.unique r in
      let here : (job.ref == r) ≡ true → 1 ≤ count_ref r s.queue =
        λ e. ground (arith, e, there, ap (λ (i : ℕ). count_ref i s.queue)) in
      elim (dispatch-cases now starts job s) [
        | inl (e, d) ↦ rw (e, d, count-without r job s.queue) (ground (arith, unique, here))
        | inr (inl (e, d)) ↦ rw (e, d) (ground (arith, unique, here, count-without r job s.queue))
        | inr (inr (e, d, c)) ↦
            let t : Started (starts job) job s' (run_job now (starts job) job s') =
              run_job-Started now (starts job) job s' in
            rw (e, d, t.grows.old r old, t.active r, count-without r job s.queue)
              (ground (arith, unique, here))
      ]

  dispatch-kept :
      (job : PendingJob) (s : Backend)
      → ((dispatch now starts job s).handlers ≡ s.handlers)
        × (s.next_ref ≤ (dispatch now starts job s).next_ref)
  dispatch-kept job s =
      let s' : Backend = record s { queue = without job s.queue } in
      elim (dispatch-cases now starts job s) [
        | inl (e, d) ↦ rw e (refl, omega arith)
        | inr (inl (e, d)) ↦ rw e (refl, omega arith)
        | inr (inr (e, d, c)) ↦
            let t : Started (starts job) job s' (run_job now (starts job) job s') =
              run_job-Started now (starts job) job s' in
            rw e (t.grows.same, t.grows.refs)
      ]

  dispatch_all-Conserved :
      (jobs : List PendingJob) (s : Backend)
      → IsAccounted s
      → AllQueued jobs s
      → r < s.next_ref
      → Conserved
          (places r (dispatch_all now starts jobs s))
          (count_if (drops r s) jobs)
          (count_if (fails r starts) jobs)
          (places r s)
  unfolding dispatch_all
  dispatch_all-Conserved [] s h q old = (omega arith, λ e. omega arith)
  dispatch_all-Conserved (job ∷ jobs) s h q old =
      let t : Backend = dispatch now starts job s in
      let (h', q') = dispatch-IsAccounted now starts job jobs s h q in
      let (handlers, refs) = dispatch-kept job s in
      let there : 1 ≤ count_ref job.ref s.queue = ground (arith, q job.ref) in
      let (le, eq) = dispatch-Conserved job s h there old in
      let (le', eq') = dispatch_all-Conserved jobs t h' q' (omega (arith, old, refs)) in
      let same : count_if (drops r t) jobs ≡ count_if (drops r s) jobs =
        ap (λ (m : JsMap (Option ℕ)). count_if (λ j. j.ref == r && not (JsMap.has j.name m)) jobs)
          handlers in
      (ground (arith, le, le', same), λ none. ground (arith, eq, eq', same, none))

-- The jobs that a tick looks at.
abbrev pub due : ℕ → Backend → List PendingJob
due now s = if s.ticking then filter (is_due now) s.queue else []

tick-Conserved :
    (now r : ℕ) (starts : PendingJob → Start) (s : Backend)
    → IsAccounted s
    → r < s.next_ref
    → Conserved
        (places r (tick now starts s))
        (count_if (drops r s) (due now s))
        (count_if (fails r starts) (due now s))
        (places r s)
unfolding tick
tick-Conserved now r starts s h old = looked s.ticking
  where
    looked :
        (ticking : Bool)
        → let jobs = if ticking then filter (is_due now) s.queue else [] in
          Conserved
            (places r
              (if ticking then dispatch_all now starts (filter (is_due now) s.queue) s else s))
            (count_if (drops r s) jobs)
            (count_if (fails r starts) jobs)
            (places r s)
    looked true =
        dispatch_all-Conserved now r starts (filter (is_due now) s.queue) s h
          (λ i. count-filter-le i (is_due now) s.queue) old
    looked false = (omega arith, λ none. omega arith)

-- After any calls, each job object is accounted for by a tick: the places where it waits or runs
-- afterwards, and one more if it is due and has no handler, are no more than the places before, and
-- just as many unless it is due and has a handler that throws before its first `await`. So no other
-- object is lost, and none is copied.
pub tick-places :
    (ops : List Op) (now r : ℕ) (starts : PendingJob → Start)
    → let s = run ops constructed in
      r < s.next_ref
      → Conserved
          (places r (tick now starts s))
          (count_if (drops r s) (due now s))
          (count_if (fails r starts) (due now s))
          (places r s)
tick-places ops now r starts old =
    tick-Conserved now r starts (run ops constructed) (run-IsAccounted ops) old
