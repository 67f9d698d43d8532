-- ===== src/Schedule/Memory/Drift.antt =====
-- packages/schedule/src/backends/memory.ts: tasks whose next time is far away.
use nexusts.Prelude.{
  subst, ℕ, ◌+◌, ◌<◌, ◌≡◌, refl, sym, ap, ◌∙◌, true, ◌&&◌, Option, some, String, arith,
}
use nexusts.Prelude.JsMap
use nexusts.Prelude.JsMap.{JsMap, Distinct}
use nexusts.Schedule.Tasks.{InternalTask, Invocation, is_cron, is_running}
use nexusts.Schedule.Memory.{Backend, is_due, tick, settle, reschedule}
use nexusts.Schedule.Memory.Starts.{starts, waits, settle-starts}
use nexusts.Schedule.Memory.Ticks.{due_now, tick-starts}

module _ (next_cron : String → ℕ → Option ℕ) where
  -- The task of a run that has ended.
  abbrev after_run : ℕ → ℕ → Invocation → Option String → InternalTask → InternalTask
  after_run max_drift now run error task = reschedule next_cron max_drift now (record task {
    invocations = task.invocations + 1;
    last_run_at = some run.started_at;
    last_error = error;
  })

  settle-tasks :
      (now : ℕ) (run : Invocation) (error : Option String) (task : InternalTask) (s : Backend)
      → JsMap.get run.task_id s.tasks ≡ some task
      → (settle next_cron now run error s).tasks
        ≡ JsMap.set run.task_id (after_run s.max_drift now run error task) s.tasks
  unfolding settle
  settle-tasks now run error task s there = rw (there, settle) refl

  after_run-due :
      (max_drift now next : ℕ) (run : Invocation) (error : Option String) (task : InternalTask)
      → is_cron task.kind && is_running task.status ≡ true
      → next_cron task.expression now ≡ some next
      → now + max_drift < next
      → is_due (now + 60000) (after_run max_drift now run error task) ≡ true
  after_run-due max_drift now next run error task kind match far = ground arith

  -- A running cron task whose next match is further away than the drift allows: when a run of it
  -- ends, the tick a minute later starts it, however late the match is.
  pub settle-tick :
      (now next : ℕ) (run : Invocation) (error : Option String) (task : InternalTask) (s : Backend)
      → Distinct s.tasks
      → JsMap.get run.task_id s.tasks ≡ some task
      → is_cron task.kind && is_running task.status ≡ true
      → next_cron task.expression now ≡ some next
      → now + s.max_drift < next
      → starts run.task_id (tick next_cron (now + 60000) waits (settle next_cron now run error s))
        ≡ starts run.task_id s + 1
  settle-tick now next run error task s d there kind match far =
      let s' = settle next_cron now run error s in
      let task' = after_run s.max_drift now run error task in
      let tasks = settle-tasks now run error task s there in
      let (one, same) =
        tick-starts next_cron (now + 60000) waits run.task_id s'
          (subst Distinct (sym tasks) (JsMap.Distinct-set run.task_id task' s.tasks d)) in
      let due : due_now (now + 60000) (JsMap.get run.task_id s'.tasks) ≡ true =
        ap (λ m. due_now (now + 60000) (JsMap.get run.task_id m)) tasks
        ∙ ap (due_now (now + 60000)) (JsMap.get-set_self run.task_id task' s.tasks)
        ∙ after_run-due s.max_drift now next run error task kind match far in
      one ∙ rw (due, settle-starts next_cron run.task_id now run error s) refl
