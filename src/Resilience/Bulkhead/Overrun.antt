-- ===== src/Resilience/Bulkhead/Overrun.antt =====
-- packages/resilience/src/bulkhead.ts: when the limit on concurrent calls holds, and when not.
use nexusts.Prelude.{
  ℕ, zero, suc, ◌+◌, ◌-◌, ◌≤◌, ◌<◌, ◌≡◌, refl, inl, inr, false, [], ◌∷◌, arith, length,
  length-append, subst,
}
use nexusts.Resilience.Bulkhead.{waits, call, take_next, resume, finish}
use nexusts.Resilience.Bulkhead.Steps.{
  World, Step, calling, resuming, finishing, cancelling, Reach, here, next, start, IsSound,
  Reach-IsSound, after_call, after_finish, take_next-total,
}

-- Steps in which no call arrives while a woken waiter has not gone on yet.
abbrev pub IsPrompt : {u v : World} → Step u v → Type 0
IsPrompt (calling w id) = w.woken ≡ []
IsPrompt _ = Unit

abbrev pub AllPrompt : {u v : World} → Reach u v → Type 0
AllPrompt here = Unit
AllPrompt (next r st) = AllPrompt r × IsPrompt st

pub record IsLimited (cap : ℕ) (w : World) : Type 0 where
  pub limit : w.bulkhead.max_concurrent ≡ cap
  pub promised : w.bulkhead.in_flight + length w.woken ≤ cap

module _ (cap room : ℕ) where
  finishing-IsLimited :
      (w : World)
      → 0 < w.running
      → IsSound cap room w
      → IsLimited cap w
      → IsLimited cap (after_finish w (finish w.bulkhead))
  unfolding finish
  finishing-IsLimited w h s o = elim (take_next-total w.bulkhead.queue) [
    | inl (id, e, shorter) ↦ ground (arith, length-append w.woken (id ∷ []))
    | inr (e, f) ↦ ground arith
  ]

  Step-IsLimited :
      {u v : World} (st : Step u v)
      → IsPrompt st
      → IsSound cap room u
      → IsLimited cap u
      → IsLimited cap v
  unfolding call resume
  Step-IsLimited (calling w id) k s o = ground arith
  Step-IsLimited (resuming w id rest e) k s o = ground arith
  Step-IsLimited (finishing w h) k s o = finishing-IsLimited w h s o
  Step-IsLimited (cancelling w id) k s o = record { limit = o.limit; promised = o.promised }

  Reach-IsLimited : {w : World} (r : Reach (start cap room) w) → AllPrompt r → IsLimited cap w
  Reach-IsLimited here k = ground arith
  Reach-IsLimited (next r st) (k, p) =
      Step-IsLimited st p (Reach-IsSound cap room r) (Reach-IsLimited r k)

  -- If no call arrives between the wake-up of a waiter and the moment it goes on, at most
  -- `maxConcurrent` calls run at once.
  pub running-le : {w : World} (r : Reach (start cap room) w) → AllPrompt r → w.running ≤ cap
  running-le r k = omega (arith, Reach-IsLimited r k, Reach-IsSound cap room r)

  -- The state after `k` calls that ran at once.
  abbrev pub filled : ℕ → World
  filled k = record {
    bulkhead = record { max_concurrent = cap; max_queued = room; in_flight = k; queue = [] };
    running = k;
    woken = [];
    served = [];
    arrived = [];
  }

  fills : (k : ℕ) → k ≤ cap → Reach (start cap room) (filled k)
  unfolding call
  fills zero h = here
  fills (suc k) h =
      let r = fills k (omega arith) in
      let e : after_call 0 (filled k) (call 0 (filled k).bulkhead) ≡ filled (suc k) =
        ground arith in
      subst (λ v. Reach (start cap room) v) e (next r (calling (filled k) 0))

  abbrev pub waiting : World
  waiting = record (filled cap) {
    bulkhead = record (filled cap).bulkhead { queue = record { id = 0; cancelled = false } ∷ [] };
    arrived = 0 ∷ [];
  }

  waits_next : 0 < room → call 0 (filled cap).bulkhead ≡ (waiting.bulkhead, waits)
  unfolding call
  waits_next h = ground arith

  -- The state in which one call has ended, and the waiter is woken and has not gone on.
  abbrev pub handed_over : ℕ → World
  handed_over k = record waiting {
    bulkhead = record (filled cap).bulkhead { in_flight = k };
    running = k;
    woken = 0 ∷ [];
    served = 0 ∷ [];
  }

  to_waiting : 0 < room → after_call 0 (filled cap) (call 0 (filled cap).bulkhead) ≡ waiting
  to_waiting h = rw (waits_next h)

  hands_over : 0 < cap → after_finish waiting (finish waiting.bulkhead) ≡ handed_over (cap - 1)
  unfolding finish take_next
  hands_over h = ground arith

  slips_in :
      0 < cap
      → after_call 1 (handed_over (cap - 1)) (call 1 (handed_over (cap - 1)).bulkhead)
        ≡ handed_over cap
  unfolding call
  slips_in h = ground arith

  goes_on : Step (handed_over cap) (record (handed_over cap) {
    bulkhead = resume (handed_over cap).bulkhead;
    running = cap + 1;
    woken = [];
  })
  goes_on = resuming (handed_over cap) 0 [] refl

  -- Whatever the limit (at least one call, and one place in the queue), a call that arrives between
  -- the wake-up of a waiter and the moment it goes on takes the slot that was promised to it: a
  -- state with one running call too many is reachable.
  pub running-exceeds :
      0 < cap → 0 < room → (w : World) × Reach (start cap room) w × (w.running ≡ cap + 1)
  running-exceeds pos h =
      let r : Reach (start cap room) waiting =
        subst (Reach (start cap room)) (to_waiting h)
          (next (fills cap (omega arith)) (calling (filled cap) 0)) in
      let s : Reach (start cap room) (handed_over (cap - 1)) =
        subst (Reach (start cap room)) (hands_over pos) (next r (finishing waiting pos)) in
      let t : Reach (start cap room) (handed_over cap) =
        subst (Reach (start cap room)) (slips_in pos)
          (next s (calling (handed_over (cap - 1)) 1)) in
      (_, next t goes_on, refl)
