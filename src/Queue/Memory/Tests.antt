-- ===== src/Queue/Memory/Tests.antt =====
-- packages/queue/src/backends/memory.ts: runs of the backend, and its theorems at concrete inputs.
use nexusts.Prelude.{true, ℕ, ◌≡◌, refl, List, [], ◌∷◌, ◌++◌, none, some, arith, length, count_if}
use nexusts.Queue.Memory.{
  AddOptions, PendingJob, activate, add_all, settle, conclude, failed, constructed, add, process,
  run_job, dispatch, dispatch_all, tick, returned, fixed,
}
use nexusts.Queue.Memory.Jobs.{Op, adding, processing, ticking, settling, run, IsAccounted, places}
use nexusts.Queue.Memory.Accounts.{run-IsAccounted}
use nexusts.Queue.Memory.Flow.{Conserved, drops, fails, due, tick-places}
use nexusts.Queue.Memory.Retries.{waits, rounds, is_retry, rounds-retries}

abbrev plain : AddOptions
plain = record { delay_seconds = none; attempts = none; backoff = none }

abbrev two_attempts : AddOptions
two_attempts = record {
  delay_seconds = none;
  attempts = some 2;
  backoff = some (record { kind = fixed; delay_ms = 5 });
}

abbrev refs : List PendingJob → List ℕ
refs [] = []
refs (j ∷ js) = j.ref ∷ refs js

abbrev calls : List Op
calls =
    processing "mail" none
    ∷ adding 0 "m0" "mail" plain
    ∷ adding 0 "m1" "mail" plain
    ∷ adding 0 "m2" "mail" plain
    ∷ adding 0 "n0" "nobody" plain
    ∷ []

-- One job runs, the job without a handler is gone, and the jobs put back have changed their order.
put_back : refs (run (calls ++ ticking 10 waits ∷ []) constructed).queue ≡ 2 ∷ 1 ∷ []
unfolding run add process tick dispatch_all dispatch run_job activate add_all
put_back = refl

-- A worker waits for a running job of another name: the counter is one for all names.
starved :
    refs
      (run
        (processing "mail" (some 1)
          ∷ processing "image" (some 1)
          ∷ adding 0 "m" "mail" plain
          ∷ adding 0 "i" "image" plain
          ∷ ticking 10 waits
          ∷ ticking 110 waits
          ∷ [])
        constructed).active
    ≡ 0 ∷ []
unfolding run add process tick dispatch_all dispatch run_job activate add_all
starved = refl

run-IsAccounted_example :
    IsAccounted (run (calls ++ ticking 10 waits ∷ settling 20 0 returned ∷ []) constructed)
run-IsAccounted_example = run-IsAccounted (calls ++ ticking 10 waits ∷ settling 20 0 returned ∷ [])

-- A handler that throws before its `await` has ended within the tick, and its job is queued again.
fails_at_once :
    let s =
      run
        (processing "mail" none
          ∷ adding 0 "m" "mail" two_attempts
          ∷ ticking 10 (λ job. record { adds = []; throws = true })
          ∷ [])
        constructed in
    (refs s.queue ≡ 1 ∷ []) × ((refs s.active ≡ []) × (s.in_flight ≡ 0))
unfolding run add process tick dispatch_all dispatch run_job activate add_all settle conclude failed
fails_at_once = (refl, (refl, refl))

tick-places_example :
    let s = run calls constructed in
    Conserved
      (places 1 (tick 10 waits s))
      (count_if (drops 1 s) (due 10 s))
      (count_if (fails 1 waits) (due 10 s))
      (places 1 s)
unfolding run add process
tick-places_example = tick-places calls 10 1 waits (omega arith)

rounds-retries_example :
    let s = rounds 7 (add 0 "m" "mail" two_attempts (process "mail" none constructed)) in
    (length s.queue ≡ 1) × (count_if is_retry s.events ≡ 7)
rounds-retries_example = rounds-retries 7 0 "m" "mail" two_attempts none (omega arith) refl
