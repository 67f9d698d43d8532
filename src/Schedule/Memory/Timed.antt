-- ===== src/Schedule/Memory/Timed.antt =====
-- packages/schedule/src/backends/memory.ts: the timers over the runs of handlers.
use nexusts.Prelude.{
  [], ◌∷◌, ℕ, ◌≡◌, ◌∙◌, Bool, true, false, Option, none, some, String, arith, if◌then◌else◌,
  Option-cases, inl, inr,
}
use nexusts.Prelude.JsMap
use nexusts.Prelude.JsMap.{JsMap, Distinct}
use nexusts.Schedule.Tasks.{InternalTask, Invocation, is_interval}
use nexusts.Schedule.Memory.{
  Backend, run_task, end_if, settle, reschedule, tick_loop, tick, is_due, run_once_and_remove, fire,
}
use nexusts.Schedule.Memory.Timers.{is_timed, IsTimed, set-IsTimed, delete-IsTimed}

module _ (next_cron : String → ℕ → Option ℕ) where
  reschedule-timed :
      (max_drift now : ℕ) (task : InternalTask)
      → is_timed (reschedule next_cron max_drift now task) ≡ is_timed task
  reschedule-timed max_drift now task = ground arith

  pub settle-IsTimed :
      (now : ℕ) (run : Invocation) (error : Option String) (s : Backend)
      → IsTimed s.tasks
      → IsTimed (settle next_cron now run error s).tasks
  unfolding settle
  settle-IsTimed now run error s h = elim (Option-cases (JsMap.get run.task_id s.tasks)) [
    | inl e ↦ rw (e, settle) h
    | inr (task, e) ↦
        rw (e, settle)
          (set-IsTimed run.task_id _ s.tasks h
            (reschedule-timed s.max_drift now _ ∙ h.timed run.task_id task e))
  ]

  end_if-IsTimed :
      (now : ℕ) (run : Invocation) (failed : Option String) (s : Backend)
      → IsTimed s.tasks
      → IsTimed (end_if next_cron now run failed s).tasks
  unfolding end_if
  end_if-IsTimed now run none s h = h
  end_if-IsTimed now run (some message) s h = settle-IsTimed now run (some message) s h

  module _ (now : ℕ) (failure : String → Option String) where
    run_task-IsTimed :
        (id : String) (s : Backend)
        → IsTimed s.tasks
        → IsTimed (run_task next_cron now failure id s).tasks
    unfolding run_task
    run_task-IsTimed id s h = elim (Option-cases (JsMap.get id s.tasks)) [
      | inl e ↦ rw (e, run_task) h
      | inr (task, e) ↦ rw (e, run_task) (end_if-IsTimed now _ (failure id) _ h)
    ]

    tick_loop-IsTimed :
        (tasks : JsMap InternalTask) (s : Backend)
        → IsTimed s.tasks
        → IsTimed (tick_loop next_cron now failure tasks s).tasks
    unfolding tick_loop
    tick_loop-IsTimed [] s h = h
    tick_loop-IsTimed ((id, task) ∷ tasks) s h =
        tick_loop-IsTimed tasks _ (branch (is_due now task))
      where
        branch : (b : Bool) → IsTimed (if b then run_task next_cron now failure id s else s).tasks
        branch true = run_task-IsTimed id s h
        branch false = h

    pub tick-IsTimed :
        (s : Backend) → IsTimed s.tasks → IsTimed (tick next_cron now failure s).tasks
    unfolding tick
    tick-IsTimed s h = tick_loop-IsTimed s.tasks s h

    run_once_and_remove-IsTimed :
        (id : String) (s : Backend)
        → IsTimed s.tasks
        → IsTimed (run_once_and_remove next_cron now failure id s).tasks
    unfolding run_once_and_remove
    run_once_and_remove-IsTimed id s h =
        let s' : Backend = run_task next_cron now failure id s in
        elim (Option-cases (JsMap.get id s'.tasks)) [
          | inl e ↦ rw (e, run_once_and_remove) (run_task-IsTimed id s h)
          | inr (task, e) ↦
              rw (e, run_once_and_remove) (delete-IsTimed id s'.tasks (run_task-IsTimed id s h))
        ]

    pub fire-IsTimed :
        (id : String) (s : Backend)
        → IsTimed s.tasks
        → IsTimed (fire next_cron now failure id s).tasks
    unfolding fire
    fire-IsTimed id s h = elim (Option-cases (JsMap.get id s.tasks)) [
      | inl e ↦ rw (e, fire) h
      | inr (task, e) ↦ rw (e, fire) (branch task.timer (is_interval task.kind))
    ]
      where
        branch :
            (b c : Bool)
            → IsTimed
                (if b
                  then if c
                    then run_task next_cron now failure id s
                    else run_once_and_remove next_cron now failure id s
                  else s).tasks
        branch false c = h
        branch true true = run_task-IsTimed id s h
        branch true false = run_once_and_remove-IsTimed id s h
