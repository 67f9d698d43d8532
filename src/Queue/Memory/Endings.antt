-- ===== src/Queue/Memory/Endings.antt =====
-- packages/queue/src/backends/memory.ts: what the end of a handler keeps.
use nexusts.Prelude.{
  subst, sym, ap, ◌∙◌, ◌<◌, ◌==◌, ℕ, ◌≤◌, ◌≡◌, refl, List, arith, if◌then◌else◌, Bool-cases, inl,
  inr,
}
use nexusts.Queue.Memory.{
  PendingJob, Backend, Outcome, returned, returned_failed, returned_status, threw, will_retry,
  failed, conclude, settle,
}
use nexusts.Queue.Memory.Counts.{count_ref, count-without, length-without, count-append}
use nexusts.Queue.Memory.Jobs.{IsAccounted}

-- The end of a handler: what follows the `await`, and the `finally`.
failed-IsAccounted :
    (now : ℕ) (job : PendingJob) (s : Backend) → IsAccounted s → IsAccounted (failed now job s)
unfolding failed
failed-IsAccounted now job s h = elim (Bool-cases (will_retry job.options)) [
  | inl e ↦
      rw (e, failed)
        (record {
          counted = h.counted;
          unique = λ r. rw (count-append r s.queue) (ground (arith, h.unique r, h.fresh r));
          fresh = λ r le. rw (count-append r s.queue) (ground (arith, h.fresh r));
        })
  | inr e ↦ rw (e, failed) (record { counted = h.counted; unique = h.unique; fresh = h.fresh })
]

conclude-IsAccounted :
    (now : ℕ) (job : PendingJob) (outcome : Outcome) (s : Backend)
    → IsAccounted s
    → IsAccounted (conclude now job outcome s) × ((conclude now job outcome s).active ≡ s.active)
unfolding conclude failed
conclude-IsAccounted now job returned s h =
    (record { counted = h.counted; unique = h.unique; fresh = h.fresh }, refl)
conclude-IsAccounted now job returned_status s h =
    (record { counted = h.counted; unique = h.unique; fresh = h.fresh }, refl)
conclude-IsAccounted now job returned_failed s h =
    (record { counted = h.counted; unique = h.unique; fresh = h.fresh }, refl)
conclude-IsAccounted now job threw s h = (failed-IsAccounted now job s h, ground arith)

pub settle-IsAccounted :
    (now : ℕ) (job : PendingJob) (outcome : Outcome) (s : Backend)
    → IsAccounted s
    → 1 ≤ count_ref job.ref s.active
    → IsAccounted (settle now job outcome s)
unfolding settle
settle-IsAccounted now job outcome s h there =
    let (h', same) = conclude-IsAccounted now job outcome s h in
    let s' = conclude now job outcome s in
    record {
      counted = omega (
        arith,
        h'.counted,
        h'.unique job.ref,
        length-without job s'.active,
        subst (λ a. 1 ≤ count_ref job.ref a) (sym same) there,
      );
      unique = λ r. rw (count-without r job s'.active) (ground (arith, h'.unique r));
      fresh = λ r le. rw (count-without r job s'.active) (ground (arith, h'.fresh r));
    }

-- The queue has at least the jobs that it had, and of those that it had no more; the handlers are
-- the same.
pub record Grows (s t : Backend) : Type 0 where
  pub more : (r : ℕ) → count_ref r s.queue ≤ count_ref r t.queue
  pub old : (r : ℕ) → r < s.next_ref → count_ref r t.queue ≡ count_ref r s.queue
  pub refs : s.next_ref ≤ t.next_ref
  pub same : t.handlers ≡ s.handlers

pub Grows-trans : (s t u : Backend) → Grows s t → Grows t u → Grows s u
Grows-trans s t u g h = record {
  more = λ r. omega (arith, g.more r, h.more r);
  old = λ r le. h.old r (omega (arith, le, g.refs)) ∙ g.old r le;
  refs = omega (arith, g.refs, h.refs);
  same = h.same ∙ g.same;
}

failed-Grows : (now : ℕ) (job : PendingJob) (s : Backend) → Grows s (failed now job s)
unfolding failed
failed-Grows now job s = elim (Bool-cases (will_retry job.options)) [
  | inl e ↦
      rw (e, failed)
        (record {
          more = λ r. rw (count-append r s.queue) (omega arith);
          old = λ r le. rw (count-append r s.queue) (ground (arith, le));
          refs = omega arith;
          same = refl;
        })
  | inr e ↦
      rw (e, failed)
        (record { more = λ r. omega arith; old = λ r le. refl; refs = omega arith; same = refl })
]

failed-active : (now : ℕ) (job : PendingJob) (s : Backend) → (failed now job s).active ≡ s.active
unfolding failed
failed-active now job s = ground arith

pub settle-Grows : (now : ℕ) (job : PendingJob) (s : Backend) → Grows s (settle now job threw s)
unfolding settle conclude
settle-Grows now job s =
    let g : Grows s (failed now job s) = failed-Grows now job s in
    record { more = g.more; old = g.old; refs = g.refs; same = g.same }

pub settle-active :
    (now r : ℕ) (job : PendingJob) (s : Backend)
    → count_ref r (settle now job threw s).active
      ≡ (if job.ref == r then 0 else count_ref r s.active)
unfolding settle conclude
settle-active now r job s =
    count-without r job (failed now job s).active
    ∙ ap (λ (a : List PendingJob). if job.ref == r then 0 else count_ref r a)
        (failed-active now job s)
