-- ===== src/Resilience/Bulkhead/Tests.antt =====
-- packages/resilience/src/bulkhead.ts: runs of the bulkhead, and its theorems at inputs.
use nexusts.Prelude.{◌≡◌, refl, true, false, [], ◌∷◌, arith, some}
use nexusts.Resilience.Bulkhead.{Bulkhead, runs, waits, full, call, take_next, finish, constructed}
use nexusts.Resilience.Bulkhead.Steps
use nexusts.Resilience.Bulkhead.Steps.{
  World, Step, calling, finishing, Reach, here, next, start, IsSound, after_call, after_finish,
}
use nexusts.Resilience.Bulkhead.Progress
use nexusts.Resilience.Bulkhead.Progress.{IsInOrder, IsIdle, AllClose}

abbrev busy : Bulkhead
busy = record (constructed 1 1) { in_flight = 1 }

abbrev queued : Bulkhead
queued = record busy { queue = record { id = 7; cancelled = false } ∷ [] }

answers :
    (call 7 (constructed 1 1) ≡ (busy, runs))
    × (call 7 busy ≡ (queued, waits))
    × (call 8 queued ≡ (queued, full))
    × (finish queued ≡ (constructed 1 1, some 7))
unfolding call finish take_next
answers = (refl, refl, refl, refl)

skips_cancelled :
    finish (record busy { queue = record { id = 6; cancelled = true } ∷ queued.queue })
    ≡ (constructed 1 1, some 7)
unfolding finish take_next
skips_cancelled = refl

abbrev two_calls : World
two_calls =
    let w = after_call 0 (start 1 1) (call 0 (start 1 1).bulkhead) in
    after_call 7 w (call 7 w.bulkhead)

abbrev two_calls_Reach : Reach (start 1 1) two_calls
two_calls_Reach =
    let w = after_call 0 (start 1 1) (call 0 (start 1 1).bulkhead) in
    next (next here (calling (start 1 1) 0)) (calling w 7)

Reach-IsSound_example : IsSound 1 1 two_calls
Reach-IsSound_example = Steps.Reach-IsSound 1 1 two_calls_Reach

Reach-settles_example :
    (v : World) × (s : Reach two_calls v) × AllClose s × IsIdle v × (v.served ≡ two_calls.arrived)
Reach-settles_example = Progress.Reach-settles 1 1 two_calls_Reach (omega arith) ((tt, tt), tt)
