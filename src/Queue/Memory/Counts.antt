-- ===== src/Queue/Memory/Counts.antt =====
-- packages/queue/src/backends/memory.ts: how often a job object stands in a list.
use nexusts.Prelude.{
  ℕ, ◌+◌, ◌≤◌, ◌≡◌, refl, Bool, List, [], ◌∷◌, ◌++◌, Option, none, some, arith, ◌==◌, if◌then◌else◌,
  filter, count_if, length,
}
use nexusts.Queue.Memory.{PendingJob, without}

abbrev pub count_ref : ℕ → List PendingJob → ℕ
count_ref r js = count_if (λ j. j.ref == r) js

-- The job object with the reference.
abbrev pub find_job : ℕ → List PendingJob → Option PendingJob
find_job r [] = none
find_job r (j ∷ js) = if j.ref == r then some j else find_job r js

pub count-without :
    (r : ℕ) (job : PendingJob) (q : List PendingJob)
    → count_ref r (without job q) ≡ (if job.ref == r then 0 else count_ref r q)
count-without r job [] = ground arith
count-without r job (j ∷ q) = ground (arith, count-without r job q)

pub length-without :
    (job : PendingJob) (q : List PendingJob)
    → length (without job q) + count_ref job.ref q ≡ length q
length-without job [] = refl
length-without job (j ∷ q) = ground (arith, length-without job q)

pub count-append :
    (r : ℕ) (q q' : List PendingJob) → count_ref r (q ++ q') ≡ count_ref r q + count_ref r q'
count-append r [] q' = omega arith
count-append r (j ∷ q) q' = ground (arith, count-append r q q')

pub count-filter-le :
    (r : ℕ) (p : PendingJob → Bool) (q : List PendingJob) → count_ref r (filter p q) ≤ count_ref r q
count-filter-le r p [] = omega arith
count-filter-le r p (j ∷ q) = ground (arith, count-filter-le r p q)

pub find_job-count :
    (r : ℕ) (q : List PendingJob) (job : PendingJob)
    → find_job r q ≡ some job
    → (job.ref ≡ r) × (1 ≤ count_ref r q)
find_job-count r [] job h = ground arith
find_job-count r (j ∷ q) job h = ground (arith, find_job-count r q job)
