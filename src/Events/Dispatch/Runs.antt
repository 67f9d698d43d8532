-- ===== src/Events/Dispatch/Runs.antt =====
-- packages/events/src/emitter.ts: what any sequence of operations and emissions keeps.
use nexusts.Prelude.{
  ℕ, ◌≤◌, ◌≡◌, refl, ◌∙◌, Bool, true, false, Option, none, some, List, [], ◌∷◌, String, arith,
}
use nexusts.Events.Listener.{
  Reply, returns, throws, resolves_later, rejects_later, InternalListener,
}
use nexusts.Events.Emitter.{
  Emitter, Op, subscribe, unsubscribe, clear, cleanup, matching_listeners, run_guards, is_eligible,
}
use nexusts.Events.Emitter.Runs.{
  IsOrderly, IsOrderly-later, on-IsOrderly, off-IsOrderly, remove_all-IsOrderly,
  remove_called-IsOrderly,
}
use nexusts.Events.Dispatch.{
  apply, apply_all, Progress, settled, settle_listener, begun, reply_if, stop_or_go, dispatch,
  finish, emit_to, emit, reply_now, dispatch_sync, emit_sync_to, emit_sync, Action, operate,
  emitting, emitting_sync, perform, run,
}

-- The time of the latest registration, where they come one after the other.
abbrev pub op_time : {P : Type 0} → ℕ → Op P → ℕ
op_time now (subscribe later pattern listener options) = later
op_time now (unsubscribe key) = now
op_time now clear = now
op_time now (cleanup called) = now

abbrev pub ops_time : {P : Type 0} → ℕ → List (Op P) → ℕ
ops_time now [] = now
ops_time now (o ∷ ops) = ops_time (op_time now o) ops

-- The clock does not go back.
abbrev pub InTime : {P : Type 0} → ℕ → List (Op P) → Type 0
InTime now [] = Unit
InTime now (o ∷ ops) = (now ≤ op_time now o) × InTime (op_time now o) ops

abbrev pub rounds_time : {P : Type 0} → ℕ → List (List (Op P)) → ℕ
rounds_time now [] = now
rounds_time now (ops ∷ rounds) = rounds_time (ops_time now ops) rounds

abbrev pub RoundsInTime : {P : Type 0} → ℕ → List (List (Op P)) → Type 0
RoundsInTime now [] = Unit
RoundsInTime now (ops ∷ rounds) = InTime now ops × RoundsInTime (ops_time now ops) rounds

abbrev pub action_time : {P : Type 0} → ℕ → Action P → ℕ
action_time now (operate o) = op_time now o
action_time now (emitting name payload before meanwhile) =
    rounds_time (ops_time now before) meanwhile
action_time now (emitting_sync name payload) = now

abbrev pub ActionInTime : {P : Type 0} → ℕ → Action P → Type 0
ActionInTime now (operate o) = now ≤ op_time now o
ActionInTime now (emitting name payload before meanwhile) =
    InTime now before × RoundsInTime (ops_time now before) meanwhile
ActionInTime now (emitting_sync name payload) = Unit

abbrev pub run_time : {P : Type 0} → ℕ → List (Action P) → ℕ
run_time now [] = now
run_time now (a ∷ more) = run_time (action_time now a) more

abbrev pub RunInTime : {P : Type 0} → ℕ → List (Action P) → Type 0
RunInTime now [] = Unit
RunInTime now (a ∷ more) = ActionInTime now a × RunInTime (action_time now a) more

module _ {P : Type 0} where
  ops_time-le : (now : ℕ) (ops : List (Op P)) → InTime now ops → now ≤ ops_time now ops
  ops_time-le now [] h = omega arith
  ops_time-le now (o ∷ ops) (le, h) = omega (arith, le, ops_time-le (op_time now o) ops h)

  rounds_time-le :
      (now : ℕ) (rounds : List (List (Op P)))
      → RoundsInTime now rounds
      → now ≤ rounds_time now rounds
  rounds_time-le now [] h = omega arith
  rounds_time-le now (ops ∷ rounds) (h, hs) =
      omega (arith, ops_time-le now ops h, rounds_time-le (ops_time now ops) rounds hs)

  -- Only the listeners, the next id and the limit matter.
  same-IsOrderly :
      (now max : ℕ) (e e' : Emitter P)
      → e'.listeners ≡ e.listeners
      → e'.next_id ≡ e.next_id
      → e'.max_per_pattern ≡ e.max_per_pattern
      → IsOrderly now max e
      → IsOrderly now max e'
  same-IsOrderly now max e e' p q r s = record {
    ordered = rw p s.ordered;
    older = rw p s.older;
    distinct = rw p s.distinct;
    numbered = rw (p, q) s.numbered;
    limit = r ∙ s.limit;
    bounded = λ pattern. rw p (s.bounded pattern);
  }

  apply-IsOrderly :
      (now max : ℕ) (o : Op P) (e : Emitter P)
      → now ≤ op_time now o
      → IsOrderly now max e
      → IsOrderly (op_time now o) max (apply o e)
  unfolding apply
  apply-IsOrderly now max (subscribe later pattern listener options) e le s =
      on-IsOrderly now later max pattern listener options e le s
  apply-IsOrderly now max (unsubscribe key) e le s = off-IsOrderly now max key e s
  apply-IsOrderly now max clear e le s = remove_all-IsOrderly now max e s
  apply-IsOrderly now max (cleanup called) e le s = remove_called-IsOrderly now max called e s

  apply_all-IsOrderly :
      (now max : ℕ) (ops : List (Op P)) (e : Emitter P)
      → InTime now ops
      → IsOrderly now max e
      → IsOrderly (ops_time now ops) max (apply_all ops e)
  unfolding apply_all
  apply_all-IsOrderly now max [] e h s = s
  apply_all-IsOrderly now max (o ∷ ops) e (le, h) s =
      apply_all-IsOrderly (op_time now o) max ops (apply o e) h (apply-IsOrderly now max o e le s)

  settle_listener-IsOrderly :
      (now max : ℕ) (l : InternalListener P) (reply : Option String) (p : Progress P)
      → IsOrderly now max p.emitter
      → IsOrderly now max (settle_listener l reply p).0.emitter
  unfolding settle_listener
  settle_listener-IsOrderly now max l none p s = same-IsOrderly now max p.emitter _ refl refl refl s
  settle_listener-IsOrderly now max l (some m) p s =
      same-IsOrderly now max p.emitter _ refl refl refl s

  stop_or_go-IsOrderly :
      (now max : ℕ) (thrown : Option String) (p : Progress P) (rest : Progress P × Option String)
      → IsOrderly now max p.emitter
      → IsOrderly now max rest.0.emitter
      → IsOrderly now max (stop_or_go thrown p rest).0.emitter
  stop_or_go-IsOrderly now max none p rest s t = t
  stop_or_go-IsOrderly now max (some m) p rest s t = s

  dispatch-IsOrderly :
      (now max : ℕ) (payload : P) (meanwhile : List (List (Op P))) (ls : List (InternalListener P))
      (p : Progress P)
      → RoundsInTime now meanwhile
      → IsOrderly now max p.emitter
      → IsOrderly (rounds_time now meanwhile) max (dispatch payload meanwhile ls p).0.emitter
  unfolding dispatch
  dispatch-IsOrderly now max payload meanwhile [] p h s =
      IsOrderly-later now (rounds_time now meanwhile) max p.emitter (rounds_time-le now meanwhile h)
        s
  dispatch-IsOrderly now max payload [] (l ∷ ls) p h s =
      let q : Progress P × Option String =
        settle_listener l (settled (l.listener payload))
          (record p { emitter = apply_all [] p.emitter }) in
      let s' : IsOrderly now max q.0.emitter =
        settle_listener-IsOrderly now max l (settled (l.listener payload)) _
          (apply_all-IsOrderly now max [] p.emitter tt s) in
      stop_or_go-IsOrderly now max q.1 q.0 (dispatch payload [] ls q.0) s'
        (dispatch-IsOrderly now max payload [] ls q.0 tt s')
  dispatch-IsOrderly now max payload (ops ∷ rounds) (l ∷ ls) p (h, hs) s =
      let q : Progress P × Option String =
        settle_listener l (settled (l.listener payload))
          (record p { emitter = apply_all ops p.emitter }) in
      let s' : IsOrderly (ops_time now ops) max q.0.emitter =
        settle_listener-IsOrderly (ops_time now ops) max l (settled (l.listener payload)) _
          (apply_all-IsOrderly now max ops p.emitter h s) in
      stop_or_go-IsOrderly (rounds_time (ops_time now ops) rounds) max q.1 q.0
        (dispatch payload rounds ls q.0)
        (IsOrderly-later (ops_time now ops) (rounds_time (ops_time now ops) rounds) max q.0.emitter
          (rounds_time-le (ops_time now ops) rounds hs) s')
        (dispatch-IsOrderly (ops_time now ops) max payload rounds ls q.0 hs s')

  finish-IsOrderly :
      (now max : ℕ) (q : Progress P × Option String)
      → IsOrderly now max q.0.emitter
      → IsOrderly now max (finish q).0
  unfolding finish
  finish-IsOrderly now max (p, none) s = remove_called-IsOrderly now max p.to_remove p.emitter s
  finish-IsOrderly now max (p, some m) s = s

  emit_to-IsOrderly :
      (now max : ℕ) (name : String) (payload : P) (before : List (Op P))
      (meanwhile : List (List (Op P))) (ls : List (InternalListener P)) (e : Emitter P)
      → InTime now before
      → RoundsInTime (ops_time now before) meanwhile
      → IsOrderly now max e
      → IsOrderly
          (rounds_time (ops_time now before) meanwhile)
          max
          (emit_to name payload before meanwhile ls e).0
  unfolding emit_to
  emit_to-IsOrderly now max name payload before meanwhile [] e h hs s =
      IsOrderly-later now (rounds_time (ops_time now before) meanwhile) max e
        (omega (arith, ops_time-le now before h, rounds_time-le (ops_time now before) meanwhile hs))
        s
  emit_to-IsOrderly now max name payload before meanwhile (l ∷ ls) e h hs s =
      let eligible : List (InternalListener P) = (run_guards payload (l ∷ ls)).0 in
      let p : Progress P = begun name payload before (l ∷ ls) e in
      finish-IsOrderly (rounds_time (ops_time now before) meanwhile) max
        (dispatch payload meanwhile eligible p)
        (dispatch-IsOrderly (ops_time now before) max payload meanwhile eligible p hs (
          same-IsOrderly (ops_time now before) max (apply_all before e) p.emitter refl refl refl
            (apply_all-IsOrderly now max before e h s)))

  reply_now-IsOrderly :
      (now max : ℕ) (l : InternalListener P) (reply : Reply) (p : Progress P)
      → IsOrderly now max p.emitter
      → IsOrderly now max (reply_now l reply p).emitter
  unfolding reply_now
  reply_now-IsOrderly now max l returns p s = same-IsOrderly now max p.emitter _ refl refl refl s
  reply_now-IsOrderly now max l (throws m) p s = s
  reply_now-IsOrderly now max l resolves_later p s =
      same-IsOrderly now max p.emitter _ refl refl refl s
  reply_now-IsOrderly now max l (rejects_later m) p s =
      same-IsOrderly now max p.emitter _ refl refl refl s

  reply_if-IsOrderly :
      (now max : ℕ) (test : Bool) (l : InternalListener P) (reply : Reply) (p : Progress P)
      → IsOrderly now max p.emitter
      → IsOrderly now max (reply_if test l reply p).emitter
  reply_if-IsOrderly now max true l reply p s = reply_now-IsOrderly now max l reply p s
  reply_if-IsOrderly now max false l reply p s = s

  dispatch_sync-IsOrderly :
      (now max : ℕ) (payload : P) (ls : List (InternalListener P)) (p : Progress P)
      → IsOrderly now max p.emitter
      → IsOrderly now max (dispatch_sync payload ls p).emitter
  unfolding dispatch_sync
  dispatch_sync-IsOrderly now max payload [] p s = s
  dispatch_sync-IsOrderly now max payload (l ∷ ls) p s =
      dispatch_sync-IsOrderly now max payload ls
        (reply_if (is_eligible payload l) l (l.listener payload) p)
        (reply_if-IsOrderly now max (is_eligible payload l) l (l.listener payload) p s)

  emit_sync_to-IsOrderly :
      (now max : ℕ) (name : String) (payload : P) (ls : List (InternalListener P)) (e : Emitter P)
      → IsOrderly now max e
      → IsOrderly now max (emit_sync_to name payload ls e).0
  unfolding emit_sync_to
  emit_sync_to-IsOrderly now max name payload [] e s = s
  emit_sync_to-IsOrderly now max name payload (l ∷ ls) e s =
      remove_called-IsOrderly now max _ _ (dispatch_sync-IsOrderly now max payload (l ∷ ls) _ s)

  perform-IsOrderly :
      (now max : ℕ) (a : Action P) (e : Emitter P)
      → ActionInTime now a
      → IsOrderly now max e
      → IsOrderly (action_time now a) max (perform a e)
  unfolding perform emit emit_sync
  perform-IsOrderly now max (operate o) e h s = apply-IsOrderly now max o e h s
  perform-IsOrderly now max (emitting name payload before meanwhile) e (h, hs) s =
      emit_to-IsOrderly now max name payload before meanwhile (matching_listeners name e) e h hs s
  perform-IsOrderly now max (emitting_sync name payload) e h s =
      emit_sync_to-IsOrderly now max name payload (matching_listeners name e) e s

  -- After any operations and emissions, with other operations in between, on a clock that does not
  -- go back: the listeners stand in the order of dispatch, none is newer than the clock, their ids
  -- differ, and no pattern has more listeners than the limit.
  pub run-IsOrderly :
      (now max : ℕ) (more : List (Action P)) (e : Emitter P)
      → RunInTime now more
      → IsOrderly now max e
      → IsOrderly (run_time now more) max (run more e)
  unfolding run
  run-IsOrderly now max [] e h s = s
  run-IsOrderly now max (a ∷ more) e (h, hs) s =
      run-IsOrderly (action_time now a) max more (perform a e) hs
        (perform-IsOrderly now max a e h s)
