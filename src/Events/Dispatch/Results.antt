-- ===== src/Events/Dispatch/Results.antt =====
-- packages/events/src/emitter.ts: the answer of `emit`, whatever runs meanwhile.
use nexusts.Prelude.{
  ℕ, ◌+◌, ◌≡◌, refl, sym, ap, ◌∙◌, false, Option, none, some, List, [], ◌∷◌, ◌++◌, String, arith,
  length, filter, append_assoc, append-nil, length-append,
}
use nexusts.Events.Listener.{InternalListener, ListenerError, EmitResult, resolved}
use nexusts.Events.Emitter.{
  Emitter, Op, subscribe, unsubscribe, clear, cleanup, on, off, remove_all_listeners, remove_called,
  matches, matching_listeners, run_guards, is_eligible,
}
use nexusts.Events.Dispatch.{
  apply, apply_all, Progress, settled, settle_listener, no_result, stop_or_go, begun, dispatch,
  finish, emit_to, emit,
}

abbrev pub one_if_completed : Option String → ℕ
one_if_completed none = 1
one_if_completed (some m) = 0

module _ {P : Type 0} where
  -- The listeners that an emission calls: those that match and whose guards let the payload pass.
  abbrev pub called : String → P → List (InternalListener P) → List (InternalListener P)
  called name payload ls = filter (is_eligible payload) (filter (matches name) ls)

  abbrev pub error_of : InternalListener P → Option String → List ListenerError
  error_of l none = []
  error_of l (some m) = record { listener_id = l.id; listener_name = l.pattern; error = m } ∷ []

  -- The errors of the listeners that fail, in their order.
  abbrev pub errors_of : P → List (InternalListener P) → List ListenerError
  errors_of payload [] = []
  errors_of payload (l ∷ ls) = error_of l (settled (l.listener payload)) ++ errors_of payload ls

  abbrev pub completions : P → List (InternalListener P) → ℕ
  completions payload [] = 0
  completions payload (l ∷ ls) =
      one_if_completed (settled (l.listener payload)) + completions payload ls

  abbrev pub tallied : P → List (InternalListener P) → EmitResult → EmitResult
  tallied payload ls r = record r {
    completed = r.completed + completions payload ls;
    failed = r.failed + length (errors_of payload ls);
    errors = r.errors ++ errors_of payload ls;
  }

  pub run_guards-filter :
      (payload : P) (ls : List (InternalListener P))
      → (run_guards payload ls).0 ≡ filter (is_eligible payload) ls
  unfolding run_guards
  run_guards-filter payload [] = refl
  run_guards-filter payload (l ∷ ls) = ground (arith, run_guards-filter payload ls)

  apply-throw_on_error : (o : Op P) (e : Emitter P) → (apply o e).throw_on_error ≡ e.throw_on_error
  unfolding apply on off remove_all_listeners remove_called
  apply-throw_on_error (subscribe now pattern listener options) e = ground arith
  apply-throw_on_error (unsubscribe key) e = refl
  apply-throw_on_error clear e = refl
  apply-throw_on_error (cleanup []) e = refl
  apply-throw_on_error (cleanup (l ∷ ls)) e = refl

  pub apply_all-throw_on_error :
      (ops : List (Op P)) (e : Emitter P) → (apply_all ops e).throw_on_error ≡ e.throw_on_error
  unfolding apply_all
  apply_all-throw_on_error [] e = refl
  apply_all-throw_on_error (o ∷ ops) e =
      apply_all-throw_on_error ops (apply o e) ∙ apply-throw_on_error o e

  -- What the loop has done after it has called the listeners of the list.
  pub record IsDone (payload : P) (ls : List (InternalListener P)) (p : Progress P)
      (q : Progress P × Option String) : Type 0 where
    pub quiet : q.1 ≡ none
    pub tally : q.0.result ≡ tallied payload ls p.result
    pub marked : q.0.to_remove ≡ p.to_remove ++ filter (λ l. l.once) ls

  settle_listener-IsDone :
      (payload : P) (l : InternalListener P) (reply : Option String) (p : Progress P)
      → settled (l.listener payload) ≡ reply
      → p.emitter.throw_on_error ≡ false
      → IsDone payload (l ∷ []) p (settle_listener l reply p)
  unfolding settle_listener
  settle_listener-IsDone payload l none p e h = record {
    quiet = refl;
    tally = rw e (ground (arith, append-nil p.result.errors));
    marked = ground (arith, append-nil p.to_remove);
  }
  settle_listener-IsDone payload l (some m) p e h = record {
    quiet = rw h refl;
    tally = rw e (ground arith);
    marked = ground (arith, append-nil p.to_remove);
  }

  settle_listener-throw_on_error :
      (l : InternalListener P) (reply : Option String) (p : Progress P)
      → (settle_listener l reply p).0.emitter.throw_on_error ≡ p.emitter.throw_on_error
  unfolding settle_listener
  settle_listener-throw_on_error l none p = refl
  settle_listener-throw_on_error l (some m) p = refl

  tallied-cons :
      (payload : P) (l : InternalListener P) (ls : List (InternalListener P)) (r : EmitResult)
      → tallied payload ls (tallied payload (l ∷ []) r) ≡ tallied payload (l ∷ ls) r
  tallied-cons payload l ls r = ground (
    arith,
    append_assoc r.errors (error_of l (settled (l.listener payload)) ++ []) (errors_of payload ls),
    append-nil (error_of l (settled (l.listener payload))),
    length-append (error_of l (settled (l.listener payload))) (errors_of payload ls),
  )

  marked-cons :
      (l : InternalListener P) (ls marked : List (InternalListener P))
      → (marked ++ filter (λ l. l.once) (l ∷ [])) ++ filter (λ l. l.once) ls
        ≡ marked ++ filter (λ l. l.once) (l ∷ ls)
  marked-cons l ls marked =
      ground (arith, append_assoc marked (l ∷ []) (filter (λ l. l.once) ls), append-nil marked)

  go_on-IsDone :
      (payload : P) (l : InternalListener P) (ls : List (InternalListener P)) (p : Progress P)
      (thrown : Option String) (q : Progress P) (rest : Progress P × Option String)
      → IsDone payload (l ∷ []) p (q, thrown)
      → IsDone payload ls q rest
      → IsDone payload (l ∷ ls) p (stop_or_go thrown q rest)
  go_on-IsDone payload l ls p none q rest d h = record {
    quiet = h.quiet;
    tally = h.tally ∙ ap (tallied payload ls) d.tally ∙ tallied-cons payload l ls p.result;
    marked =
        h.marked
        ∙ ap (λ (m : List (InternalListener P)). m ++ filter (λ l. l.once) ls) d.marked
        ∙ marked-cons l ls p.to_remove;
  }
  go_on-IsDone payload l ls p (some m) q rest d h = absurd (cc (d.quiet))

  -- One round of the loop.
  abbrev round :
      P
      → List (Op P)
      → List (List (Op P))
      → InternalListener P
      → List (InternalListener P)
      → Progress P
      → Progress P × Option String
  round payload ops later l ls p =
      let q : Progress P × Option String =
        settle_listener l (settled (l.listener payload))
          (record p { emitter = apply_all ops p.emitter }) in
      stop_or_go q.1 q.0 (dispatch payload later ls q.0)

  round-IsDone :
      (payload : P) (ops : List (Op P)) (later : List (List (Op P))) (l : InternalListener P)
      (ls : List (InternalListener P)) (p : Progress P)
      → p.emitter.throw_on_error ≡ false
      → ((q : Progress P)
          → q.emitter.throw_on_error ≡ false
          → IsDone payload ls q (dispatch payload later ls q))
      → IsDone payload (l ∷ ls) p (round payload ops later l ls p)
  round-IsDone payload ops later l ls p h more =
      let reply : Option String = settled (l.listener payload) in
      let p' : Progress P = record p { emitter = apply_all ops p.emitter } in
      let h' : p'.emitter.throw_on_error ≡ false = apply_all-throw_on_error ops p.emitter ∙ h in
      let q : Progress P × Option String = settle_listener l reply p' in
      let d : IsDone payload (l ∷ []) p' q = settle_listener-IsDone payload l reply p' refl h' in
      go_on-IsDone payload l ls p q.1 q.0 (dispatch payload later ls q.0)
        (record { quiet = d.quiet; tally = d.tally; marked = d.marked })
        (more q.0 (settle_listener-throw_on_error l reply p' ∙ h'))

  pub dispatch-IsDone :
      (payload : P) (meanwhile : List (List (Op P))) (ls : List (InternalListener P))
      (p : Progress P)
      → p.emitter.throw_on_error ≡ false
      → IsDone payload ls p (dispatch payload meanwhile ls p)
  unfolding dispatch
  dispatch-IsDone payload meanwhile [] p h = record {
    quiet = refl;
    tally = ground (arith, append-nil p.result.errors);
    marked = sym (append-nil p.to_remove);
  }
  dispatch-IsDone payload [] (l ∷ ls) p h =
      round-IsDone payload [] [] l ls p h (dispatch-IsDone payload [] ls)
  dispatch-IsDone payload (ops ∷ rounds) (l ∷ ls) p h =
      round-IsDone payload ops rounds l ls p h (dispatch-IsDone payload rounds ls)

  finished :
      (payload : P) (ls : List (InternalListener P)) (p : Progress P)
      (q : Progress P × Option String)
      → IsDone payload ls p q
      → (finish q).1 ≡ resolved (tallied payload ls p.result)
  unfolding finish
  finished payload ls p (q, none) d = ap resolved d.tally
  finished payload ls p (q, some m) d = absurd (cc (d.quiet))

  emit_to-result :
      (name : String) (payload : P) (before : List (Op P)) (meanwhile : List (List (Op P)))
      (ls : List (InternalListener P)) (e : Emitter P)
      → e.throw_on_error ≡ false
      → (emit_to name payload before meanwhile ls e).1
        ≡ resolved (tallied payload (filter (is_eligible payload) ls) (no_result name (length ls)))
  unfolding emit_to
  emit_to-result name payload before meanwhile [] e h = ap resolved (ground arith)
  emit_to-result name payload before meanwhile (l ∷ ls) e h =
      let p : Progress P = begun name payload before (l ∷ ls) e in
      finished payload (run_guards payload (l ∷ ls)).0 p
        (dispatch payload meanwhile (run_guards payload (l ∷ ls)).0 p)
        (dispatch-IsDone payload meanwhile (run_guards payload (l ∷ ls)).0 p
          (apply_all-throw_on_error before e ∙ h))
      ∙ ap
          (λ (ms : List (InternalListener P)).
            resolved (tallied payload ms (no_result name (length (l ∷ ls)))))
          (run_guards-filter payload (l ∷ ls))

  -- Without `throwOnError` an emission resolves, whatever runs meanwhile. It reports how many
  -- listeners matched at its start, how many of those that their guards let through completed, and
  -- the errors of the others in the order of dispatch.
  pub emit-result :
      (name : String) (payload : P) (before : List (Op P)) (meanwhile : List (List (Op P)))
      (e : Emitter P)
      → e.throw_on_error ≡ false
      → (emit name payload before meanwhile e).1
        ≡ resolved (record {
          name = name;
          matched = length (filter (matches name) e.listeners);
          completed = completions payload (called name payload e.listeners);
          failed = length (errors_of payload (called name payload e.listeners));
          errors = errors_of payload (called name payload e.listeners);
        })
  unfolding emit matching_listeners
  emit-result name payload before meanwhile e h =
      emit_to-result name payload before meanwhile (filter (matches name) e.listeners) e h
      ∙ ap resolved (ground arith)
