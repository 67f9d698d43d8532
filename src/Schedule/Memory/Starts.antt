-- ===== src/Schedule/Memory/Starts.antt =====
-- packages/schedule/src/backends/memory.ts: the starts of handlers, and what their ends leave alone.
use nexusts.Prelude.{
  is_some, ℕ, ◌+◌, ◌≡◌, refl, ap, ◌∙◌, Bool, true, false, List, [], ◌∷◌, ◌++◌, Option, none, some,
  String, str_eq, eq_iff, arith, filter, filter-append, count_if, length-append, Option-cases, inl,
  inr,
}
use nexusts.Prelude.JsMap
use nexusts.Prelude.JsMap.{JsMap, Distinct}
use nexusts.Schedule.Tasks.{
  InternalTask, ScheduleEvent, task_registered, task_invoked, task_completed, task_failed,
  task_paused, task_resumed, task_deleted, Invocation,
}
use nexusts.Schedule.Memory.{Backend, end_if, settle}

-- How often the handler of the task has been started.
abbrev pub starts_task : String → ScheduleEvent → Bool
starts_task id (task_invoked i name) = str_eq i id
starts_task id (task_registered i name kind expression) = false
starts_task id (task_completed i name) = false
starts_task id (task_failed i name message) = false
starts_task id (task_paused i) = false
starts_task id (task_resumed i) = false
starts_task id (task_deleted i) = false

abbrev pub starts : String → Backend → ℕ
starts id s = count_if (starts_task id) s.events

pub starts-append :
    (id : String) (p q : List ScheduleEvent)
    → count_if (starts_task id) (p ++ q) ≡ count_if (starts_task id) p + count_if (starts_task id) q
starts-append id p q =
    rw (filter-append (starts_task id) p q)
      (length-append (filter (starts_task id) p) (filter (starts_task id) q))

has-set_there :
    (j k : String) (new : InternalTask) (tasks : JsMap InternalTask)
    → JsMap.has k tasks ≡ true
    → JsMap.has j (JsMap.set k new tasks) ≡ JsMap.has j tasks
has-set_there j k new tasks h =
    ground
      (arith, h, JsMap.get-set k j new tasks, eq_iff k j, ap (λ (i : String). JsMap.get i tasks))

-- No handler throws at once.
abbrev pub waits : String → Option String
waits i = none

module _ (next_cron : String → ℕ → Option ℕ) where
  pub settle-starts :
      (id : String) (now : ℕ) (run : Invocation) (error : Option String) (s : Backend)
      → starts id (settle next_cron now run error s) ≡ starts id s
  unfolding settle
  settle-starts id now run error s = elim (Option-cases (JsMap.get run.task_id s.tasks)) [
    | inl e ↦ rw (e, settle) (ended error)
    | inr (task, e) ↦ rw (e, settle) (ended error)
  ]
    where
      ended :
          (error : Option String)
          → count_if (starts_task id) (
              s.events
              ++ (elim error as (λ x. ScheduleEvent) [
                | none ↦ task_completed run.task_id run.task_name
                | some message ↦ task_failed run.task_id run.task_name message
              ])
                ∷ [])
            ≡ starts id s
      ended none = starts-append id s.events _ ∙ omega arith
      ended (some message) = starts-append id s.events _ ∙ omega arith

  settle-has :
      (j : String) (now : ℕ) (run : Invocation) (error : Option String) (s : Backend)
      → JsMap.has j (settle next_cron now run error s).tasks ≡ JsMap.has j s.tasks
  unfolding settle
  settle-has j now run error s = elim (Option-cases (JsMap.get run.task_id s.tasks)) [
    | inl e ↦ rw (e, settle) refl
    | inr (task, e) ↦ rw (e, settle) (has-set_there j run.task_id _ s.tasks (ap is_some e))
  ]

  pub end_if-starts :
      (id : String) (now : ℕ) (run : Invocation) (failed : Option String) (s : Backend)
      → starts id (end_if next_cron now run failed s) ≡ starts id s
  unfolding end_if
  end_if-starts id now run none s = refl
  end_if-starts id now run (some message) s = settle-starts id now run (some message) s

  pub end_if-has :
      (j : String) (now : ℕ) (run : Invocation) (failed : Option String) (s : Backend)
      → JsMap.has j (end_if next_cron now run failed s).tasks ≡ JsMap.has j s.tasks
  unfolding end_if
  end_if-has j now run none s = refl
  end_if-has j now run (some message) s = settle-has j now run (some message) s

  pub end_if-tasks :
      (now : ℕ) (run : Invocation) (failed : Option String) (s : Backend)
      → failed ≡ none
      → (end_if next_cron now run failed s).tasks ≡ s.tasks
  unfolding end_if
  end_if-tasks now run none s e = refl
  end_if-tasks now run (some message) s e = absurd (cc)
