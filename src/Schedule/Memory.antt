-- ===== src/Schedule/Memory.antt =====
-- packages/schedule/src/backends/memory.ts: `MemorySchedulesBackend`. `next_cron` is the calculator of
-- packages/schedule/src/cron-parser.ts, an argument here: the first matching time after a time.
-- `run_task` calls the handler, which may throw at once, and `settle` is what follows its `await`. The
-- calls that a handler makes come after the tick that starts it. Timers are flags; a timer that is
-- armed may fire at any time.
pub mod Paused
pub mod Starts
pub mod Ticks
pub mod Drift
pub mod Timers
pub mod Timed
mod Tests
use Prim.Native.String.{◌++◌ as join}
use nexusts.Prelude.{
  ℕ, zero, suc, ◌+◌, ◌-◌, ◌*◌, ◌/◌, ◌%◌, Bool, true, false, not, ◌&&◌, ◌||◌, List, [], ◌∷◌, ◌++◌,
  Option, none, some, String, leb, ltb, ◌==◌, if◌then◌else◌, is_some, get_or_else,
}
use nexusts.Prelude.JsMap
use nexusts.Schedule.Tasks.{
  TaskKind, cron, interval, timeout, Status, running, paused, InternalTask, ScheduleEvent,
  task_registered, task_invoked, task_completed, task_failed, task_paused, task_resumed,
  task_deleted, Invocation, is_cron, is_interval, is_running,
}
use nexusts.Prelude.Decimal.{digit, digits, decimal}
use nexusts.Prelude.JsMap.{JsMap}

pub record Backend : Type 0 where
  pub tasks : JsMap InternalTask
  pub by_name : JsMap String
  pub ticking : Bool
  pub max_drift : ℕ
  pub next_id : ℕ
  pub events : List ScheduleEvent

abbrev pub constructed : ℕ → Backend
constructed max_drift = record {
  tasks = [];
  by_name = [];
  ticking = false;
  max_drift = max_drift;
  next_id = 1;
  events = [];
}

abbrev pub emit : ScheduleEvent → Backend → Backend
emit e s = record s { events = s.events ++ e ∷ [] }

-- A new task under the next id.
unfoldable pub register :
    String → TaskKind → String → (next_run_at : ℕ) → (timer : Bool) → Backend → Backend × String
unfolding decimal
register name kind expression next_run_at timer s =
    let id = join "sched-" (decimal s.next_id) in
    (
      emit (task_registered id name kind expression) (record s {
        next_id = s.next_id + 1;
        tasks =
            JsMap.set id
              (record {
                id = id;
                name = name;
                kind = kind;
                expression = expression;
                next_run_at = next_run_at;
                last_run_at = none;
                invocations = 0;
                last_error = none;
                status = running;
                timer = timer;
              })
              s.tasks;
        by_name = JsMap.set name id s.by_name;
      }),
      id,
    )

unfoldable pub add_interval : ℕ → String → ℕ → Backend → Backend × String
unfolding register
add_interval now name ms s = register name interval (join (decimal ms) "ms") (now + ms) true s

unfoldable pub add_timeout : ℕ → String → ℕ → Backend → Backend × String
unfolding register
add_timeout now name ms s = register name timeout (join (decimal ms) "ms") (now + ms) true s

abbrev pub resolve_id : String → Backend → Option String
resolve_id id_or_name s =
    if JsMap.has id_or_name s.tasks then some id_or_name else JsMap.get id_or_name s.by_name

-- The task that an id or a name finds, with its id.
abbrev pub find_task : String → Backend → Option (String × InternalTask)
find_task id_or_name s = elim (resolve_id id_or_name s) [
  | none ↦ none
  | some id ↦ elim (JsMap.get id s.tasks) [ none ↦ none | some task ↦ some (id, task) ]
]

unfoldable pub delete : String → Backend → Backend × Bool
delete id_or_name s = elim (find_task id_or_name s) [
  | none ↦ (s, false)
  | some found ↦ (
    emit (task_deleted found.0) (record s {
      tasks = JsMap.delete found.0 s.tasks;
      by_name = JsMap.delete found.1.name s.by_name;
    }),
    true,
  )
]

unfoldable pub get : String → Backend → Option InternalTask
get id_or_name s = elim (find_task id_or_name s) [ none ↦ none | some found ↦ some found.1 ]

unfoldable pub pause : String → Backend → Backend × Bool
pause id_or_name s = elim (find_task id_or_name s) [
  | none ↦ (s, false)
  | some found ↦ (
    emit (task_paused found.0) (record s {
      tasks = JsMap.set found.0 (record found.1 { timer = false; status = paused }) s.tasks;
    }),
    true,
  )
]

unfoldable pub resume : String → Backend → Backend × Bool
resume id_or_name s = elim (find_task id_or_name s) [
  | none ↦ (s, false)
  | some found ↦ (
    emit (task_resumed found.0) (record s {
      tasks =
          JsMap.set found.0
            (record found.1 { timer = is_interval found.1.kind || found.1.timer; status = running })
            s.tasks;
    }),
    true,
  )
]

abbrev pub stop : Backend → Backend
stop s = record s { tasks = []; by_name = []; ticking = false }

abbrev pub start : Backend → Backend
start s = record s { ticking = true }

abbrev pub is_due : ℕ → InternalTask → Bool
is_due now task = is_running task.status && is_cron task.kind && leb task.next_run_at now

module _ (next_cron : String → ℕ → Option ℕ) where
  unfoldable pub add_cron : ℕ → String → String → Bool → Backend → Backend × String
  unfolding register
  add_cron now name expression run_on_init s =
      let next = next_cron expression (if run_on_init then now - 1000 else now) in
      register name cron expression (get_or_else next (now + 60000)) false s

  -- The next run of a cron task after one that ended at the time.
  abbrev pub rescheduled : ℕ → ℕ → String → ℕ
  rescheduled max_drift now expression = elim (next_cron expression now) [
    | none ↦ now + 60000
    | some next ↦ if ltb (now + max_drift) next then now + 60000 else next
  ]

  -- The `finally` of `run_task`.
  abbrev pub reschedule : ℕ → ℕ → InternalTask → InternalTask
  reschedule max_drift now task =
      if is_cron task.kind && is_running task.status
      then record task { next_run_at = rescheduled max_drift now task.expression }
      else task

  -- What `run_task` does when its handler ends, with the message of an error that it threw.
  unfoldable pub settle : ℕ → Invocation → Option String → Backend → Backend
  settle now run error s =
      let s' =
        emit
          (elim error [
            | none ↦ task_completed run.task_id run.task_name
            | some message ↦ task_failed run.task_id run.task_name message
          ])
          s in
      elim (JsMap.get run.task_id s.tasks) [
        | none ↦ s'
        | some task ↦ record s' {
          tasks =
              JsMap.set run.task_id
                (reschedule s.max_drift now (record task {
                  invocations = task.invocations + 1;
                  last_run_at = some run.started_at;
                  last_error = error;
                }))
                s.tasks;
        }
      ]

  -- What a handler that throws before its first `await` has done to the task when `run_task` gives its
  -- promise; `none` is a handler that does not.
  unfoldable pub end_if : ℕ → Invocation → Option String → Backend → Backend
  unfolding settle
  end_if now run none s = s
  end_if now run (some message) s = settle now run (some message) s

  -- `run_task` up to its `await`; `failure` gives the message of a handler that throws at once.
  unfoldable pub run_task : ℕ → (String → Option String) → String → Backend → Backend
  unfolding end_if
  run_task now failure id s = elim (JsMap.get id s.tasks) [
    | none ↦ s
    | some task ↦
        end_if now (record { task_id = id; task_name = task.name; started_at = now }) (failure id)
          (emit (task_invoked id task.name) s)
  ]

  -- The loop of `tick`.
  unfoldable pub tick_loop : ℕ → (String → Option String) → JsMap InternalTask → Backend → Backend
  unfolding run_task
  tick_loop now failure [] s = s
  tick_loop now failure ((id, task) ∷ tasks) s =
      tick_loop now failure tasks (if is_due now task then run_task now failure id s else s)

  unfoldable pub tick : ℕ → (String → Option String) → Backend → Backend
  unfolding tick_loop
  tick now failure s = tick_loop now failure s.tasks s

  unfoldable pub run_once_and_remove : ℕ → (String → Option String) → String → Backend → Backend
  unfolding run_task
  run_once_and_remove now failure id s =
      let s' = run_task now failure id s in
      elim (JsMap.get id s'.tasks) [
        | none ↦ s'
        | some task ↦ emit (task_deleted id) (record s' {
          tasks = JsMap.delete id s'.tasks;
          by_name = JsMap.delete task.name s'.by_name;
        })
      ]

  -- The timer of a task, if it is armed.
  unfoldable pub fire : ℕ → (String → Option String) → String → Backend → Backend
  unfolding run_task run_once_and_remove
  fire now failure id s = elim (JsMap.get id s.tasks) [
    | none ↦ s
    | some task ↦
        if task.timer
        then if is_interval task.kind
          then run_task now failure id s
          else run_once_and_remove now failure id s
        else s
  ]
