-- ===== src/Queue/Memory/Dispatching.antt =====
-- packages/queue/src/backends/memory.ts: what the loop of a tick keeps.
use nexusts.Prelude.{
  ap, ◌∙◌, ◌==◌, if◌then◌else◌, ℕ, ◌+◌, ◌≤◌, ◌<◌, ◌≡◌, refl, true, false, List, [], ◌∷◌, Option,
  some, String, arith, leb, get_or_else, Option-cases, Bool-cases, inl, inr, length-append, leb→lt,
  ◌⊎◌,
}
use nexusts.Prelude.JsMap
use nexusts.Queue.Memory.{
  AddOptions, PendingJob, Start, Backend, threw, add, add_all, activate, without, run_job, dispatch,
  dispatch_all, settle,
}
use nexusts.Queue.Memory.Counts.{count_ref, count-without, count-append}
use nexusts.Queue.Memory.Jobs.{IsAccounted, add-IsAccounted, is_dropped}
use nexusts.Queue.Memory.Endings.{
  settle-IsAccounted, Grows, Grows-trans, settle-Grows, settle-active,
}

-- The jobs that a tick still has to look at are in the queue.
abbrev pub AllQueued : List PendingJob → Backend → Type 0
AllQueued jobs s = (r : ℕ) → count_ref r jobs ≤ count_ref r s.queue

add-Grows :
    (now : ℕ) (job_id name : String) (options : AddOptions) (s : Backend)
    → Grows s (add now job_id name options s)
unfolding add
add-Grows now job_id name options s = record {
  more = λ r. rw (count-append r s.queue) (omega arith);
  old = λ r le. rw (count-append r s.queue) (ground (arith, le));
  refs = omega arith;
  same = refl;
}

-- What the jobs that a handler adds leave alone.
record Added (s t : Backend) : Type 0 where
  accounted : IsAccounted s → IsAccounted t
  grows : Grows s t
  active : t.active ≡ s.active

add_all-Added :
    (now : ℕ) (adds : List (String × (String × AddOptions))) (s : Backend)
    → Added s (add_all now adds s)
unfolding add_all
add_all-Added now [] s = record {
  accounted = λ h. h;
  grows = record { more = λ r. omega arith; old = λ r le. refl; refs = omega arith; same = refl };
  active = refl;
}
add_all-Added now ((job_id, (name, options)) ∷ adds) s =
    let t : Backend = add now job_id name options s in
    let rest : Added t (add_all now adds t) = add_all-Added now adds t in
    record {
      accounted = λ h. rest.accounted (add-IsAccounted now job_id name options s h);
      grows = Grows-trans s t (add_all now adds t) (add-Grows now job_id name options s) rest.grows;
      active = rest.active ∙ unfold add in refl;
    }

activate-IsAccounted :
    (job : PendingJob) (s : Backend)
    → IsAccounted s
    → 1 ≤ count_ref job.ref s.queue
    → IsAccounted (activate job (record s { queue = without job s.queue }))
unfolding activate
activate-IsAccounted job s h there = record {
  counted = rw (length-append s.active (job ∷ [])) (omega (arith, h.counted));
  unique = λ r.
      rw (count-append r s.active (job ∷ []), count-without r job s.queue)
        (ground (arith, h.unique r));
  fresh = λ r le.
      rw (count-append r s.active (job ∷ []), count-without r job s.queue)
        (ground (arith, h.fresh r));
}

activate-Grows : (job : PendingJob) (s : Backend) → Grows s (activate job s)
unfolding activate
activate-Grows job s = record {
  more = λ r. omega arith;
  old = λ r le. refl;
  refs = omega arith;
  same = refl;
}

activate-active :
    (r : ℕ) (job : PendingJob) (s : Backend)
    → count_ref r (activate job s).active ≡ (if job.ref == r then 1 else 0) + count_ref r s.active
unfolding activate
activate-active r job s = count-append r s.active (job ∷ []) ∙ ground arith

-- What `run_job` makes of a state: the job is running, but if its handler threw at once.
pub record Started (start : Start) (job : PendingJob) (s t : Backend) : Type 0 where
  pub grows : Grows s t
  pub active :
      (r : ℕ)
      → count_ref r t.active ≡ (
          if job.ref == r
          then if start.throws then 0 else count_ref r s.active + 1
          else count_ref r s.active)

pub run_job-Started :
    (now : ℕ) (start : Start) (job : PendingJob) (s : Backend)
    → Started start job s (run_job now start job s)
unfolding run_job
run_job-Started now start job s =
    let t : Backend = activate job s in
    let u : Backend = add_all now start.adds t in
    let a : Added t u = add_all-Added now start.adds t in
    let g : Grows s u = Grows-trans s t u (activate-Grows job s) a.grows in
    let there : (r : ℕ)
        → count_ref r u.active ≡ (if job.ref == r then 1 else 0) + count_ref r s.active =
      λ r. ap (count_ref r) a.active ∙ activate-active r job s in
    elim (Bool-cases start.throws) [
      | inl e ↦ rw e (record {
        grows = Grows-trans s u (settle now job threw u) g (settle-Grows now job u);
        active = λ r. settle-active now r job u ∙ ground (arith, there r);
      })
      | inr e ↦ rw e (record { grows = g; active = λ r. ground (arith, there r) })
    ]

run_job-IsAccounted :
    (now : ℕ) (start : Start) (job : PendingJob) (s : Backend)
    → IsAccounted s
    → 1 ≤ count_ref job.ref s.queue
    → IsAccounted (run_job now start job (record s { queue = without job s.queue }))
unfolding run_job
run_job-IsAccounted now start job s h there =
    let s' : Backend = record s { queue = without job s.queue } in
    let t : Backend = activate job s' in
    let u : Backend = add_all now start.adds t in
    let a : Added t u = add_all-Added now start.adds t in
    let h' : IsAccounted u = a.accounted (activate-IsAccounted job s h there) in
    let runs : count_ref job.ref u.active
        ≡ (if job.ref == job.ref then 1 else 0) + count_ref job.ref s.active =
      ap (count_ref job.ref) a.active ∙ activate-active job.ref job s' in
    elim (Bool-cases start.throws) [
      | inl e ↦ rw e (settle-IsAccounted now job threw u h' (ground (arith, runs)))
      | inr e ↦ rw e h'
    ]

drop-IsAccounted :
    (job : PendingJob) (s : Backend)
    → IsAccounted s
    → IsAccounted (record s { queue = without job s.queue })
drop-IsAccounted job s h = record {
  counted = h.counted;
  unique = λ r. rw (count-without r job s.queue) (ground (arith, h.unique r));
  fresh = λ r le. rw (count-without r job s.queue) (ground (arith, h.fresh r));
}

requeue-IsAccounted :
    (job : PendingJob) (s : Backend)
    → IsAccounted s
    → 1 ≤ count_ref job.ref s.queue
    → IsAccounted (record s { queue = job ∷ without job s.queue })
requeue-IsAccounted job s h there = record {
  counted = h.counted;
  unique = λ r. ground (arith, h.unique r, count-without r job s.queue);
  fresh = λ r le. ground (arith, h.fresh r, count-without r job s.queue);
}

-- What the loop of `tick` does with a due job: it drops it, puts it back or runs it.
pub dispatch-cases :
    (now : ℕ) (starts : PendingJob → Start) (job : PendingJob) (s : Backend)
    → ((dispatch now starts job s ≡ record s { queue = without job s.queue })
        × (is_dropped s job ≡ true))
      ⊎ ((dispatch now starts job s ≡ record s { queue = job ∷ without job s.queue })
          × (is_dropped s job ≡ false))
      ⊎ ((dispatch now starts job s
            ≡ run_job now (starts job) job (record s { queue = without job s.queue }))
          × (is_dropped s job ≡ false)
          × ((c : Option ℕ) × (JsMap.get job.name s.handlers ≡ some c)
              × (s.in_flight < get_or_else c 1)))
unfolding dispatch
dispatch-cases now starts job s = elim (Option-cases (JsMap.get job.name s.handlers)) [
  | inl e ↦ inl (rw (e, dispatch) refl, rw e refl)
  | inr (c, e) ↦ elim (Bool-cases (leb (get_or_else c 1) s.in_flight)) [
    | inl full ↦ inr (inl (rw (e, dispatch) (rw full refl), rw e refl))
    | inr free ↦ inr (inr (rw (e, dispatch) (rw free refl), rw e refl, (c, e, leb→lt _ _ free)))
  ]
]

queued_rest :
    (job : PendingJob) (jobs q : List PendingJob) (r : ℕ)
    → count_ref r q ≤ 1
    → count_ref r (job ∷ jobs) ≤ count_ref r q
    → count_ref r jobs ≤ count_ref r (without job q)
queued_rest job jobs q r u le = rw (count-without r job q) (ground arith)

pub dispatch-IsAccounted :
    (now : ℕ) (starts : PendingJob → Start) (job : PendingJob) (jobs : List PendingJob)
    (s : Backend)
    → IsAccounted s
    → AllQueued (job ∷ jobs) s
    → IsAccounted (dispatch now starts job s) × AllQueued jobs (dispatch now starts job s)
dispatch-IsAccounted now starts job jobs s h q =
    let there : 1 ≤ count_ref job.ref s.queue = ground (arith, q job.ref) in
    let s' : Backend = record s { queue = without job s.queue } in
    let rest : (r : ℕ) → count_ref r jobs ≤ count_ref r (without job s.queue) =
      λ r. queued_rest job jobs s.queue r (omega (arith, h.unique r)) (q r) in
    elim (dispatch-cases now starts job s) [
      | inl (e, d) ↦ rw e (drop-IsAccounted job s h, rest)
      | inr (inl (e, d)) ↦ rw e (requeue-IsAccounted job s h there, λ r. ground (arith, rest r))
      | inr (inr (e, d, c)) ↦ rw e (
        run_job-IsAccounted now (starts job) job s h there,
        λ r. omega (arith, rest r, (run_job-Started now (starts job) job s').grows.more r),
      )
    ]

pub dispatch_all-IsAccounted :
    (now : ℕ) (starts : PendingJob → Start) (jobs : List PendingJob) (s : Backend)
    → IsAccounted s
    → AllQueued jobs s
    → IsAccounted (dispatch_all now starts jobs s)
unfolding dispatch_all
dispatch_all-IsAccounted now starts [] s h q = h
dispatch_all-IsAccounted now starts (job ∷ jobs) s h q =
    let (h', q') = dispatch-IsAccounted now starts job jobs s h q in
    dispatch_all-IsAccounted now starts jobs (dispatch now starts job s) h' q'
