-- ===== src/Schedule/Tasks.antt =====
-- packages/schedule/src/backends/memory.ts and types.ts: the tasks of the in-process backend, and
-- its events.
use nexusts.Prelude.{ℕ, Bool, true, false, Option, String}

pub data TaskKind : Type 0 where
  cron : TaskKind
  interval : TaskKind
  timeout : TaskKind

pub data Status : Type 0 where
  running : Status
  paused : Status

pub record InternalTask : Type 0 where
  pub id : String
  pub name : String
  pub kind : TaskKind
  pub expression : String
  pub next_run_at : ℕ
  pub last_run_at : Option ℕ
  pub invocations : ℕ
  pub last_error : Option String
  pub status : Status
  pub timer : Bool

pub data ScheduleEvent : Type 0 where
  task_registered : String → String → TaskKind → String → ScheduleEvent
  task_invoked : String → String → ScheduleEvent
  task_completed : String → String → ScheduleEvent
  task_failed : String → String → String → ScheduleEvent
  task_paused : String → ScheduleEvent
  task_resumed : String → ScheduleEvent
  task_deleted : String → ScheduleEvent

-- A running `run_task`: its task's id and name, and the time of its start.
pub record Invocation : Type 0 where
  pub task_id : String
  pub task_name : String
  pub started_at : ℕ

abbrev pub is_cron : TaskKind → Bool
is_cron cron = true
is_cron interval = false
is_cron timeout = false

abbrev pub is_interval : TaskKind → Bool
is_interval cron = false
is_interval interval = true
is_interval timeout = false

abbrev pub is_running : Status → Bool
is_running running = true
is_running paused = false
