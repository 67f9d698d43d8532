-- ===== src/Schedule/Memory/Tests.antt =====
-- packages/schedule/src/backends/memory.ts: runs of the backend, and its theorems at concrete inputs.
use nexusts.Prelude.{ℕ, ◌+◌, ◌≡◌, refl, true, false, List, [], ◌∷◌, Option, none, some, String}
use nexusts.Schedule.Tasks.{InternalTask, cron, running}
use nexusts.Prelude.Decimal.{decimal, digits}
use nexusts.Schedule.Memory.{
  Backend, constructed, register, add_cron, delete, get, tick, tick_loop, run_task, end_if, settle,
}
use nexusts.Schedule.Memory.Timers.{Op, adding_cron, pausing}

-- A day later, for every expression.
abbrev daily : String → ℕ → Option ℕ
daily expression now = some (now + 86400000)

abbrev report : InternalTask
report = record {
  id = "sched-1";
  name = "report";
  kind = cron;
  expression = "@daily";
  next_run_at = 1000;
  last_run_at = none;
  invocations = 0;
  last_error = none;
  status = running;
  timer = false;
}

abbrev reporting : Backend
reporting = record {
  tasks = ("sched-1", report) ∷ [];
  by_name = ("report", "sched-1") ∷ [];
  ticking = true;
  max_drift = 60000;
  next_id = 2;
  events = [];
}

texts : decimal 1205 ≡ "1205"
unfolding decimal digits
texts = refl

abbrev calls : List Op
calls = adding_cron 0 "report" "@daily" false ∷ pausing "report" ∷ []

-- Two tasks of one name: deleting the first also takes the second one's name away.
name_lost :
    get "report"
      (delete "sched-1"
        (add_cron daily 0 "report" "@daily" false
          (add_cron daily 0 "report" "@daily" false (constructed 60000)).0).0).0
    ≡ none
unfolding get delete add_cron register decimal digits
name_lost = refl

abbrev fails : String → Option String
fails id = some "boom"

-- A handler that throws at once has ended within the tick, and its task has its next time.
fails_at_once :
    get "report" (tick daily 1000 fails reporting)
    ≡ some (record report {
      next_run_at = 61000;
      last_run_at = some 1000;
      invocations = 1;
      last_error = some "boom";
    })
unfolding get tick tick_loop run_task end_if settle
fails_at_once = refl
