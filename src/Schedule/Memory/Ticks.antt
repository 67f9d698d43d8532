-- ===== src/Schedule/Memory/Ticks.antt =====
-- packages/schedule/src/backends/memory.ts: which handlers a tick starts.
use nexusts.Prelude.{
  is_some, subst, ℕ, ◌+◌, ◌≤◌, ◌≡◌, refl, sym, ap, ◌∙◌, Bool, true, false, ◌&&◌, [], ◌∷◌, Option,
  none, some, String, str_eq, eq_iff, eq_refl, arith, if◌then◌else◌, Bool-cases, Option-cases, inl,
  inr,
}
use nexusts.Prelude.JsMap
use nexusts.Prelude.JsMap.{JsMap, Distinct}
use nexusts.Schedule.Tasks.{InternalTask, task_invoked}
use nexusts.Schedule.Memory.{Backend, run_task, is_due, tick_loop, tick}
use nexusts.Schedule.Memory.Starts.{
  starts, waits, starts-append, end_if-starts, end_if-has, end_if-tasks,
}

abbrev pub due_now : ℕ → Option InternalTask → Bool
due_now now none = false
due_now now (some task) = is_due now task

head_or_tail :
    (now n : ℕ) (b : Bool) (task : InternalTask) (o : Option InternalTask)
    → (b ≡ true → is_some o ≡ false)
    → (n + (if is_due now task && b then 1 else 0)) + (if due_now now o then 1 else 0)
      ≡ n + (if due_now now (if b then some task else o) then 1 else 0)
head_or_tail now n true task none h = ground arith
head_or_tail now n true task (some t) h = ground (arith, h refl)
head_or_tail now n false task o h = ground arith

due_later :
    (now later : ℕ) (o : Option InternalTask)
    → now ≤ later
    → due_now now o ≡ true
    → due_now later o ≡ true
due_later now later none le h = h
due_later now later (some task) le h = ground arith

module _ (next_cron : String → ℕ → Option ℕ) where
  module _ (now : ℕ) (failure : String → Option String) where
    run_task-starts :
        (i id : String) (s : Backend)
        → starts id (run_task next_cron now failure i s)
          ≡ starts id s + (if str_eq i id && JsMap.has i s.tasks then 1 else 0)
    unfolding run_task
    run_task-starts i id s = elim (Option-cases (JsMap.get i s.tasks)) [
      | inl e ↦ rw (e, run_task) (ground arith)
      | inr (task, e) ↦
          rw (e, run_task)
            (end_if-starts next_cron id now _ (failure i) _
              ∙ (starts-append id s.events (task_invoked i task.name ∷ []) ∙ ground arith))
    ]

    run_task-has :
        (i j : String) (s : Backend)
        → JsMap.has j (run_task next_cron now failure i s).tasks ≡ JsMap.has j s.tasks
    unfolding run_task
    run_task-has i j s = elim (Option-cases (JsMap.get i s.tasks)) [
      | inl e ↦ rw (e, run_task) refl
      | inr (task, e) ↦ rw (e, run_task) (end_if-has next_cron j now _ (failure i) _)
    ]

    run_task-tasks :
        (i : String) (s : Backend)
        → failure i ≡ none
        → (run_task next_cron now failure i s).tasks ≡ s.tasks
    unfolding run_task
    run_task-tasks i s quiet = elim (Option-cases (JsMap.get i s.tasks)) [
      | inl e ↦ rw (e, run_task) refl
      | inr (task, e) ↦ rw (e, run_task) (end_if-tasks next_cron now _ (failure i) _ quiet)
    ]

    tick_one : String → InternalTask → Backend → Backend
    tick_one i task s = if is_due now task then run_task next_cron now failure i s else s

    tick_one-starts :
        (i id : String) (task : InternalTask) (s : Backend)
        → JsMap.has i s.tasks ≡ true
        → (starts id (tick_one i task s)
            ≡ starts id s + (if is_due now task && str_eq i id then 1 else 0))
          × (((j : String) → JsMap.has j (tick_one i task s).tasks ≡ JsMap.has j s.tasks)
              × (failure i ≡ none → (tick_one i task s).tasks ≡ s.tasks))
    unfolding tick_one
    tick_one-starts i id task s h = elim (Bool-cases (is_due now task)) [
      | inl e ↦
          rw (e, tick_one)
            (
              run_task-starts i id s ∙ rw h (ground arith),
              ((λ j. run_task-has i j s), run_task-tasks i s),
            )
      | inr e ↦ rw (e, tick_one) (omega arith, ((λ j. refl), λ quiet. refl))
    ]

    tick_loop-starts :
        (id : String) (tasks : JsMap InternalTask) (s : Backend)
        → Distinct tasks
        → ((j : String) → JsMap.has j tasks ≡ true → JsMap.has j s.tasks ≡ true)
        → (starts id (tick_loop next_cron now failure tasks s)
            ≡ starts id s + (if due_now now (JsMap.get id tasks) then 1 else 0))
          × (((i : String) → failure i ≡ none)
              → (tick_loop next_cron now failure tasks s).tasks ≡ s.tasks)
    unfolding tick_loop tick_one
    tick_loop-starts id [] s d there = (omega arith, λ quiet. refl)
    tick_loop-starts id ((i, task) ∷ tasks) s (absent, d) there =
        let s' = tick_one i task s in
        let (one, (kept, same)) =
          tick_one-starts i id task s (there i (ground (arith, eq_refl i))) in
        let (many, same') =
          tick_loop-starts id tasks s' d
            (λ j h. kept j ∙ there j (ground (arith, eq_iff i j, absent, h))) in
        (
          many
              ∙ rw one (
                  head_or_tail now (starts id s) (str_eq i id) task (JsMap.get id tasks)
                    (λ e. ap (λ k. JsMap.has k tasks) (sym ((eq_iff i id).0 e)) ∙ absent)),
          λ quiet. same' quiet ∙ same (quiet i),
        )

    pub tick-starts :
        (id : String) (s : Backend)
        → Distinct s.tasks
        → (starts id (tick next_cron now failure s)
            ≡ starts id s + (if due_now now (JsMap.get id s.tasks) then 1 else 0))
          × (((i : String) → failure i ≡ none) → (tick next_cron now failure s).tasks ≡ s.tasks)
    unfolding tick
    tick-starts id s d = tick_loop-starts id s.tasks s d (λ j h. h)

  -- A due task whose handler has not ended is started again by the next tick: two ticks start two runs
  -- of it side by side.
  pub tick-tick :
      (now later : ℕ) (id : String) (s : Backend)
      → Distinct s.tasks
      → now ≤ later
      → due_now now (JsMap.get id s.tasks) ≡ true
      → starts id (tick next_cron later waits (tick next_cron now waits s)) ≡ starts id s + 2
  tick-tick now later id s d le due =
      let (one, kept) = tick-starts now waits id s d in
      let same : (tick next_cron now waits s).tasks ≡ s.tasks = kept (λ i. refl) in
      let (two, kept') =
        tick-starts later waits id (tick next_cron now waits s) (subst Distinct (sym same) d) in
      let due' =
        ap (λ m. due_now later (JsMap.get id m)) same
        ∙ due_later now later (JsMap.get id s.tasks) le due in
      two ∙ rw (due', one, due) (omega arith)
