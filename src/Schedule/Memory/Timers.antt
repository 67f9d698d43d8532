-- ===== src/Schedule/Memory/Timers.antt =====
-- packages/schedule/src/backends/memory.ts: the timers of the tasks over all calls.
use nexusts.Prelude.{
  ℕ, ◌≡◌, refl, sym, subst, ◌∙◌, Bool, true, false, not, ◌&&◌, ◌||◌, Option, none, some, String,
  str_eq, arith, if◌then◌else◌, Option-cases, inl, inr,
}
use nexusts.Prelude.JsMap
use nexusts.Prelude.JsMap.{JsMap, Distinct}
use nexusts.Schedule.Tasks.{InternalTask, TaskKind, Invocation, is_cron, is_interval, is_running}
use nexusts.Schedule.Memory.{Backend, register, resolve_id, find_task, delete, pause, resume}

-- A timer is armed only for a running task that is no cron task.
abbrev pub is_timed : InternalTask → Bool
is_timed t = not t.timer || is_running t.status && not (is_cron t.kind)

pub record IsTimed (tasks : JsMap InternalTask) : Type 0 where
  pub distinct : Distinct tasks
  pub timed : (id : String) (t : InternalTask) → JsMap.get id tasks ≡ some t → is_timed t ≡ true

pub data Op : Type 0 where
  adding_cron : ℕ → String → String → Bool → Op
  adding_interval : ℕ → String → ℕ → Op
  adding_timeout : ℕ → String → ℕ → Op
  deleting : String → Op
  pausing : String → Op
  resuming : String → Op
  stopping : Op
  starting : Op
  ticking : ℕ → (String → Option String) → Op
  firing : ℕ → (String → Option String) → String → Op
  settling : ℕ → Invocation → Option String → Op

abbrev timed_option : Option InternalTask → Bool
timed_option none = true
timed_option (some t) = is_timed t

pub set-IsTimed :
    (id : String) (t : InternalTask) (tasks : JsMap InternalTask)
    → IsTimed tasks
    → is_timed t ≡ true
    → IsTimed (JsMap.set id t tasks)
set-IsTimed id t tasks h timed = record {
  distinct = JsMap.Distinct-set id t tasks h.distinct;
  timed = λ j t' e.
      of_write (str_eq id j) (JsMap.get j tasks) t' (h.timed j)
        (sym (JsMap.get-set id j t tasks) ∙ e);
}
  where
    of_write :
        (b : Bool) (o : Option InternalTask) (t' : InternalTask)
        → ((u : InternalTask) → o ≡ some u → is_timed u ≡ true)
        → (if b then some t else o) ≡ some t'
        → is_timed t' ≡ true
    of_write true o t' f e = subst (λ o. timed_option o ≡ true) e timed
    of_write false o t' f e = f t' e

pub delete-IsTimed :
    (id : String) (tasks : JsMap InternalTask) → IsTimed tasks → IsTimed (JsMap.delete id tasks)
delete-IsTimed id tasks h = record {
  distinct = JsMap.Distinct-delete id tasks h.distinct;
  timed = λ j t' e.
      of_delete (str_eq id j) (JsMap.get j tasks) t' (h.timed j)
        (sym (JsMap.get-delete id j tasks) ∙ e);
}
  where
    of_delete :
        (b : Bool) (o : Option InternalTask) (t' : InternalTask)
        → ((u : InternalTask) → o ≡ some u → is_timed u ≡ true)
        → (if b then none else o) ≡ some t'
        → is_timed t' ≡ true
    of_delete true o t' f e = ground arith
    of_delete false o t' f e = f t' e

FoundIn : JsMap InternalTask → Option (String × InternalTask) → Type 0
FoundIn tasks none = Unit
FoundIn tasks (some (id, task)) = JsMap.get id tasks ≡ some task

find_task-FoundIn : (id_or_name : String) (s : Backend) → FoundIn s.tasks (find_task id_or_name s)
unfolding FoundIn
find_task-FoundIn id_or_name s = by_id (resolve_id id_or_name s)
  where
    by_task :
        (id : String) (o : Option InternalTask)
        → JsMap.get id s.tasks ≡ o
        → FoundIn s.tasks (elim o [ none ↦ none | some task ↦ some (id, task) ])
    by_task id none e = tt
    by_task id (some task) e = e

    by_id :
        (o : Option String)
        → FoundIn s.tasks (elim o [
          | none ↦ none
          | some id ↦ elim (JsMap.get id s.tasks) [ none ↦ none | some task ↦ some (id, task) ]
        ])
    by_id none = tt
    by_id (some id) = by_task id (JsMap.get id s.tasks) refl

-- What `find_task` finds is in the map under its id.
find_task-get :
    (id_or_name : String) (s : Backend) (found : String × InternalTask)
    → find_task id_or_name s ≡ some found
    → JsMap.get found.0 s.tasks ≡ some found.1
unfolding FoundIn
find_task-get id_or_name s found e = subst (FoundIn s.tasks) e (find_task-FoundIn id_or_name s)

pub register-IsTimed :
    (name : String) (kind : TaskKind) (expression : String) (next_run_at : ℕ) (timer : Bool)
    (s : Backend)
    → not timer || not (is_cron kind) ≡ true
    → IsTimed s.tasks
    → IsTimed (register name kind expression next_run_at timer s).0.tasks
unfolding register
register-IsTimed name kind expression next_run_at timer s e h = set-IsTimed _ _ s.tasks h e

pub delete_task-IsTimed :
    (id_or_name : String) (s : Backend) → IsTimed s.tasks → IsTimed (delete id_or_name s).0.tasks
unfolding delete
delete_task-IsTimed id_or_name s h = elim (Option-cases (find_task id_or_name s)) [
  | inl e ↦ rw (e, delete) h
  | inr (found, e) ↦ rw (e, delete) (delete-IsTimed found.0 s.tasks h)
]

pub pause-IsTimed :
    (id_or_name : String) (s : Backend) → IsTimed s.tasks → IsTimed (pause id_or_name s).0.tasks
unfolding pause
pause-IsTimed id_or_name s h = elim (Option-cases (find_task id_or_name s)) [
  | inl e ↦ rw (e, pause) h
  | inr (found, e) ↦ rw (e, pause) (set-IsTimed found.0 _ s.tasks h refl)
]

resumed_timed :
    (kind : TaskKind) (timer running : Bool)
    → not timer || running && not (is_cron kind) ≡ true
    → not (is_interval kind || timer) || not (is_cron kind) ≡ true
resumed_timed kind timer running h = ground arith

pub resume-IsTimed :
    (id_or_name : String) (s : Backend) → IsTimed s.tasks → IsTimed (resume id_or_name s).0.tasks
unfolding resume
resume-IsTimed id_or_name s h = elim (Option-cases (find_task id_or_name s)) [
  | inl e ↦ rw (e, resume) h
  | inr (found, e) ↦
      rw (e, resume)
        (set-IsTimed found.0 _ s.tasks h (
          resumed_timed found.1.kind found.1.timer (is_running found.1.status)
            (h.timed found.0 found.1 (find_task-get id_or_name s found e))))
]
