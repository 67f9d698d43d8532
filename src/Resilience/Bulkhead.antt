-- ===== src/Resilience/Bulkhead.antt =====
-- packages/resilience/src/bulkhead.ts: `Bulkhead`. `execute` is cut at its `await`s: `call` runs to
-- the call of `fn`, the rejection or the wait; `resume` goes on behind `token.acquire()`; `finish`
-- is the `finally` block. A waiter that `drain` has woken goes on in a later microtask, so other
-- calls may come between.
pub mod Steps
pub mod Progress
pub mod Overrun
mod Tests
use nexusts.Prelude.{
  ℕ, ◌+◌, ◌-◌, Bool, true, false, List, [], ◌∷◌, ◌++◌, Option, none, some, leb, ltb, ◌==◌,
  if◌then◌else◌, length,
}

-- A waiter: `id` stands for its resolver; `acquired` tokens have left the queue.
pub record SlotToken : Type 0 where
  pub id : ℕ
  pub cancelled : Bool

pub record Bulkhead : Type 0 where
  pub max_concurrent : ℕ
  pub max_queued : ℕ
  pub in_flight : ℕ
  pub queue : List SlotToken

pub data Answer : Type 0 where
  runs waits full : Answer

-- `execute` up to its first `await`; a caller that waits gets the token `id` (`enqueue`).
unfoldable pub call : ℕ → Bulkhead → Bulkhead × Answer
call id b =
    if ltb b.in_flight b.max_concurrent
    then (record b { in_flight = b.in_flight + 1 }, runs)
    else if leb b.max_queued (length b.queue)
    then (b, full)
    else (record b { queue = b.queue ++ record { id = id; cancelled = false } ∷ [] }, waits)

-- The loop of `drain` while a slot is free: the queue left, and the waiter woken.
unfoldable pub take_next : List SlotToken → List SlotToken × Option ℕ
take_next [] = ([], none)
take_next (t ∷ q) = if t.cancelled then take_next q else (q, some t.id)

unfoldable pub drain : Bulkhead → Bulkhead × Option ℕ
drain b =
    if ltb b.in_flight b.max_concurrent
    then (record b { queue = (take_next b.queue).0 }, (take_next b.queue).1)
    else (b, none)

unfoldable pub resume : Bulkhead → Bulkhead
resume b = record b { in_flight = b.in_flight + 1 }

unfoldable pub finish : Bulkhead → Bulkhead × Option ℕ
unfolding drain
finish b = drain (record b { in_flight = b.in_flight - 1 })

-- The token's `cancel`, which does nothing to a token that has left the queue.
unfoldable pub cancel_in : ℕ → List SlotToken → List SlotToken
cancel_in id [] = []
cancel_in id (t ∷ q) = (if t.id == id then record t { cancelled = true } else t) ∷ cancel_in id q

abbrev pub cancel : ℕ → Bulkhead → Bulkhead
cancel id b = record b { queue = cancel_in id b.queue }

abbrev pub constructed : ℕ → ℕ → Bulkhead
constructed max_concurrent max_queued = record {
  max_concurrent = max_concurrent;
  max_queued = max_queued;
  in_flight = 0;
  queue = [];
}
