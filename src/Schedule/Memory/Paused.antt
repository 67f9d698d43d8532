-- ===== src/Schedule/Memory/Paused.antt =====
-- packages/schedule/src/backends/memory.ts: a paused task over all calls.
use nexusts.Prelude.{
  ℕ, ◌≡◌, refl, ap, ◌∙◌, Bool, true, false, List, [], ◌∷◌, Option, some, String, arith,
  if◌then◌else◌,
}
use nexusts.Prelude.JsMap
use nexusts.Prelude.JsMap.{JsMap, Distinct}
use nexusts.Schedule.Tasks.{InternalTask, is_running}
use nexusts.Schedule.Memory.{
  Backend, constructed, add_cron, add_interval, add_timeout, delete, pause, resume, stop, start,
  fire, tick, settle,
}
use nexusts.Schedule.Memory.Starts.{starts}
use nexusts.Schedule.Memory.Ticks.{tick-starts}
use nexusts.Schedule.Memory.Timers.{
  IsTimed, Op, adding_cron, adding_interval, adding_timeout, deleting, pausing, resuming, stopping,
  starting, ticking, firing, settling, register-IsTimed, delete_task-IsTimed, pause-IsTimed,
  resume-IsTimed,
}
use nexusts.Schedule.Memory.Timed.{fire-IsTimed, tick-IsTimed, settle-IsTimed}

module _ (next_cron : String → ℕ → Option ℕ) where
  abbrev pub perform : Op → Backend → Backend
  perform (adding_cron now name expression run_on_init) s =
      (add_cron next_cron now name expression run_on_init s).0
  perform (adding_interval now name ms) s = (add_interval now name ms s).0
  perform (adding_timeout now name ms) s = (add_timeout now name ms s).0
  perform (deleting id_or_name) s = (delete id_or_name s).0
  perform (pausing id_or_name) s = (pause id_or_name s).0
  perform (resuming id_or_name) s = (resume id_or_name s).0
  perform stopping s = stop s
  perform starting s = start s
  perform (ticking now failure) s = if s.ticking then tick next_cron now failure s else s
  perform (firing now failure id) s = fire next_cron now failure id s
  perform (settling now run error) s = settle next_cron now run error s

  unfoldable pub run : List Op → Backend → Backend
  run [] s = s
  run (op ∷ ops) s = run ops (perform op s)

  perform-IsTimed : (op : Op) (s : Backend) → IsTimed s.tasks → IsTimed (perform op s).tasks
  unfolding add_cron add_interval add_timeout
  perform-IsTimed (adding_cron now name expression run_on_init) s h =
      register-IsTimed name _ expression _ false s refl h
  perform-IsTimed (adding_interval now name ms) s h = register-IsTimed name _ _ _ true s refl h
  perform-IsTimed (adding_timeout now name ms) s h = register-IsTimed name _ _ _ true s refl h
  perform-IsTimed (deleting id_or_name) s h = delete_task-IsTimed id_or_name s h
  perform-IsTimed (pausing id_or_name) s h = pause-IsTimed id_or_name s h
  perform-IsTimed (resuming id_or_name) s h = resume-IsTimed id_or_name s h
  perform-IsTimed stopping s h = record { distinct = tt; timed = λ id t e. ground arith }
  perform-IsTimed starting s h = h
  perform-IsTimed (ticking now failure) s h = branch s.ticking
    where
      branch : (b : Bool) → IsTimed (if b then tick next_cron now failure s else s).tasks
      branch false = h
      branch true = tick-IsTimed next_cron now failure s h
  perform-IsTimed (firing now failure id) s h = fire-IsTimed next_cron now failure id s h
  perform-IsTimed (settling now run error) s h = settle-IsTimed next_cron now run error s h

  pub run-IsTimed : (ops : List Op) (s : Backend) → IsTimed s.tasks → IsTimed (run ops s).tasks
  unfolding run
  run-IsTimed [] s h = h
  run-IsTimed (op ∷ ops) s h = run-IsTimed ops (perform op s) (perform-IsTimed op s h)

  fire-unarmed :
      (now : ℕ) (failure : String → Option String) (id : String) (task : InternalTask) (s : Backend)
      → JsMap.get id s.tasks ≡ some task
      → task.timer ≡ false
      → fire next_cron now failure id s ≡ s
  unfolding fire
  fire-unarmed now failure id task s there off = rw (there, fire) (rw off refl)

  -- After any calls, neither a tick nor a timer starts the handler of a paused task.
  pub run-paused :
      (max_drift now : ℕ) (failure : String → Option String) (ops : List Op) (id : String)
      (task : InternalTask)
      → JsMap.get id (run ops (constructed max_drift)).tasks ≡ some task
      → is_running task.status ≡ false
      → let s = run ops (constructed max_drift) in
        (starts id (tick next_cron now failure s) ≡ starts id s)
        × (starts id (fire next_cron now failure id s) ≡ starts id s)
  run-paused max_drift now failure ops id task there off =
      let s = run ops (constructed max_drift) in
      let h =
        run-IsTimed ops (constructed max_drift)
          (record { distinct = tt; timed = λ id t e. ground arith }) in
      (
        (tick-starts next_cron now failure id s h.distinct).0 ∙ rw there (rw off (omega arith)),
        ap (starts id)
            (fire-unarmed now failure id task s there (ground (arith, h.timed id task there))),
      )
