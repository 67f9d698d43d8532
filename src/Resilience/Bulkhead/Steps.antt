-- ===== src/Resilience/Bulkhead/Steps.antt =====
-- packages/resilience/src/bulkhead.ts: the bulkhead under any interleaving of calls, wake-ups,
-- ends and cancellations.
use nexusts.Prelude.{
  ℕ, suc, ◌+◌, ◌-◌, ◌≤◌, ◌<◌, ◌≡◌, refl, ap, ◌⊎◌, inl, inr, false, List, [], ◌∷◌, ◌++◌, arith,
  length, length-append, Option, none, some,
}
use nexusts.Resilience.Bulkhead.{
  SlotToken, Bulkhead, Answer, runs, waits, full, call, take_next, resume, finish, cancel_in,
  cancel, constructed,
}

-- `running` counts the calls of `fn` in flight, `woken` the waiters that are resolved and have not
-- gone on yet, `arrived` all that ever waited.
pub record World : Type 0 where
  pub bulkhead : Bulkhead
  pub running : ℕ
  pub woken : List ℕ
  pub served : List ℕ
  pub arrived : List ℕ

abbrev pub wake : Option ℕ → List ℕ → List ℕ
wake none woken = woken
wake (some id) woken = woken ++ id ∷ []

abbrev pub after_call : ℕ → World → Bulkhead × Answer → World
after_call id w (b, runs) = record w { bulkhead = b; running = w.running + 1 }
after_call id w (b, waits) = record w { bulkhead = b; arrived = w.arrived ++ id ∷ [] }
after_call id w (b, full) = record w { bulkhead = b }

abbrev pub after_finish : World → Bulkhead × Option ℕ → World
after_finish w (b, next) = record w {
  bulkhead = b;
  running = w.running - 1;
  woken = wake next w.woken;
  served = wake next w.served;
}

pub data Step : World → World → Type 0 where
  calling : (w : World) (id : ℕ) → Step w (after_call id w (call id w.bulkhead))
  resuming :
      (w : World) (id : ℕ) (rest : List ℕ)
      → w.woken ≡ id ∷ rest
      → Step w (record w { bulkhead = resume w.bulkhead; running = w.running + 1; woken = rest })
  finishing : (w : World) → 0 < w.running → Step w (after_finish w (finish w.bulkhead))
  cancelling : (w : World) (id : ℕ) → Step w (record w { bulkhead = cancel id w.bulkhead })

pub data Reach (w : World) : World → Type 0 where
  here : Reach w w
  next : {u v : World} → Reach w u → Step u v → Reach w v

abbrev pub start : ℕ → ℕ → World
start max_concurrent max_queued = record {
  bulkhead = constructed max_concurrent max_queued;
  running = 0;
  woken = [];
  served = [];
  arrived = [];
}

-- `counted`: `inFlight` is the number of calls that run. `fits`: the queue keeps its bound. `busy`:
-- somebody waits only if every slot is taken or promised.
pub record IsSound (max_concurrent max_queued : ℕ) (w : World) : Type 0 where
  pub limit : w.bulkhead.max_concurrent ≡ max_concurrent
  pub room : w.bulkhead.max_queued ≡ max_queued
  pub counted : w.bulkhead.in_flight ≡ w.running
  pub fits : length w.bulkhead.queue ≤ max_queued
  pub busy : (w.bulkhead.queue ≡ []) ⊎ (max_concurrent ≤ w.bulkhead.in_flight + length w.woken)

pub length-cancel_in : (id : ℕ) (q : List SlotToken) → length (cancel_in id q) ≡ length q
unfolding cancel_in
length-cancel_in id [] = refl
length-cancel_in id (t ∷ q) = ap suc (length-cancel_in id q)

pub length-take_next : (q : List SlotToken) → length (take_next q).0 ≤ length q
unfolding take_next
length-take_next [] = omega arith
length-take_next (t ∷ q) = ground (arith, length-take_next q)

-- Either someone is woken or nobody is left.
pub take_next-total :
    (q : List SlotToken)
    → ((id : ℕ) × ((take_next q).1 ≡ some id) × (length (take_next q).0 < length q))
      ⊎ (((take_next q).1 ≡ none) × ((take_next q).0 ≡ []))
unfolding take_next
take_next-total [] = inr (refl, refl)
take_next-total (t ∷ q) = ground (arith, take_next-total q)

cancel_in_nil : (id : ℕ) (q : List SlotToken) → q ≡ [] → cancel_in id q ≡ []
unfolding cancel_in
cancel_in_nil id [] e = refl
cancel_in_nil id (t ∷ q) e = cc

module _ {cap room : ℕ} where
  calling-IsSound :
      (w : World) (id : ℕ)
      → IsSound cap room w
      → IsSound cap room (after_call id w (call id w.bulkhead))
  unfolding call
  calling-IsSound w id s =
      ground (arith, length-append w.bulkhead.queue (record { id = id; cancelled = false } ∷ []))

  resuming-IsSound :
      (w : World) (id : ℕ) (rest : List ℕ)
      → w.woken ≡ id ∷ rest
      → IsSound cap room w
      → IsSound cap room
          (record w { bulkhead = resume w.bulkhead; running = w.running + 1; woken = rest })
  unfolding resume
  resuming-IsSound w id rest e s = ground arith

  finishing-IsSound :
      (w : World)
      → 0 < w.running
      → IsSound cap room w
      → IsSound cap room (after_finish w (finish w.bulkhead))
  unfolding finish
  finishing-IsSound w h s = elim (take_next-total w.bulkhead.queue) [
    | inl (id, e, shorter) ↦ ground (arith, length-append w.woken (id ∷ []))
    | inr (e, f) ↦ ground arith
  ]

  cancelling-IsSound :
      (w : World) (id : ℕ)
      → IsSound cap room w
      → IsSound cap room (record w { bulkhead = cancel id w.bulkhead })
  cancelling-IsSound w id s =
      ground (arith, length-cancel_in id w.bulkhead.queue, cancel_in_nil id w.bulkhead.queue)

  pub Step-IsSound : {u v : World} → Step u v → IsSound cap room u → IsSound cap room v
  Step-IsSound (calling w id) s = calling-IsSound w id s
  Step-IsSound (resuming w id rest e) s = resuming-IsSound w id rest e s
  Step-IsSound (finishing w h) s = finishing-IsSound w h s
  Step-IsSound (cancelling w id) s = cancelling-IsSound w id s

-- In every reachable state `inFlight` counts the calls that run, the queue is within `maxQueued`,
-- and somebody waits only while `maxConcurrent` slots are taken or promised to a woken waiter.
pub Reach-IsSound : (cap room : ℕ) {w : World} → Reach (start cap room) w → IsSound cap room w
Reach-IsSound cap room here = ground arith
Reach-IsSound cap room (next r st) = Step-IsSound st (Reach-IsSound cap room r)
