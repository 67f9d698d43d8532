-- ===== src/Events/Dispatch.antt =====
-- packages/events/src/emitter.ts: emissions.
mod Runs
mod Results
mod Once
mod Rejections
mod Sync
mod Tests
use nexusts.Prelude.{
  ℕ, ◌+◌, Bool, true, false, Option, none, some, List, [], ◌∷◌, ◌++◌, String, if◌then◌else◌, length,
}
use nexusts.Events.Listener.{
  Reply, returns, throws, resolves_later, rejects_later, InternalListener, EmitterEvent, fired,
  failed, ListenerError, EmitResult, EmitOutcome, resolved, rejected,
}
use nexusts.Events.Emitter.{
  Emitter, Op, subscribe, unsubscribe, clear, cleanup, on, off, remove_all_listeners, remove_called,
  tell, matching_listeners, run_guards, is_eligible,
}

-- What `await` finds: nothing, or the message of an error.
abbrev pub settled : Reply → Option String
settled returns = none
settled resolves_later = none
settled (throws message) = some message
settled (rejects_later message) = some message

abbrev pub no_result : String → ℕ → EmitResult
no_result name matched = record {
  name = name;
  matched = matched;
  completed = 0;
  failed = 0;
  errors = [];
}

abbrev pub count_completed : EmitResult → EmitResult
count_completed r = record r { completed = r.completed + 1 }

module _ {P : Type 0} where
  pub apply : Op P → Emitter P → Emitter P
  unfolding on off remove_all_listeners remove_called
  apply (subscribe now pattern listener options) e = (on now pattern listener options e).0
  apply (unsubscribe key) e = (off key e).0
  apply clear e = remove_all_listeners e
  apply (cleanup called) e = remove_called called e

  pub apply_all : List (Op P) → Emitter P → Emitter P
  unfolding apply
  apply_all [] e = e
  apply_all (o ∷ ops) e = apply_all ops (apply o e)

  abbrev pub count_failed : InternalListener P → String → EmitResult → EmitResult
  count_failed l message r = record r {
    failed = r.failed + 1;
    errors =
        r.errors ++ record { listener_id = l.id; listener_name = l.pattern; error = message } ∷ [];
  }

  abbrev pub to_remove_if_once :
      InternalListener P → List (InternalListener P) → List (InternalListener P)
  to_remove_if_once l ls = if l.once then ls ++ l ∷ [] else ls

-- The variables of the loop.
pub record Progress (P : Type 0) : Type 0 where
  pub emitter : Emitter P
  pub result : EmitResult
  pub to_remove : List (InternalListener P)

module _ {P : Type 0} where
  -- One round of the loop of `emit`, after the `await`: the message if the error is thrown on.
  pub settle_listener : InternalListener P → Option String → Progress P → Progress P × Option String
  settle_listener l none p = (
    record {
      emitter = tell (fired l.id l.pattern) p.emitter;
      result = count_completed p.result;
      to_remove = to_remove_if_once l p.to_remove;
    },
    none,
  )
  settle_listener l (some message) p = (
    record {
      emitter = tell (failed l.id l.pattern message) p.emitter;
      result = count_failed l message p.result;
      to_remove = to_remove_if_once l p.to_remove;
    },
    (if p.emitter.throw_on_error then some message else none),
  )

  abbrev pub first_ops : List (List (Op P)) → List (Op P)
  first_ops [] = []
  first_ops (ops ∷ rest) = ops

  abbrev pub later_ops : List (List (Op P)) → List (List (Op P))
  later_ops [] = []
  later_ops (ops ∷ rest) = rest

  abbrev pub stop_or_go :
      Option String → Progress P → Progress P × Option String → Progress P × Option String
  stop_or_go none p rest = rest
  stop_or_go (some message) p rest = (p, some message)

  pub dispatch :
      P → List (List (Op P)) → List (InternalListener P) → Progress P → Progress P × Option String
  unfolding settle_listener apply_all
  dispatch payload meanwhile [] p = (p, none)
  dispatch payload meanwhile (l ∷ ls) p =
      let (p', thrown) =
        settle_listener l (settled (l.listener payload))
          (record p { emitter = apply_all (first_ops meanwhile) p.emitter }) in
      let rest = dispatch payload (later_ops meanwhile) ls p' in stop_or_go thrown p' rest

  pub finish : Progress P × Option String → Emitter P × EmitOutcome
  unfolding remove_called
  finish (p, none) = (remove_called p.to_remove p.emitter, resolved p.result)
  finish (p, some message) = (p.emitter, rejected message)

  abbrev pub tell_all : List EmitterEvent → Emitter P → Emitter P
  tell_all events e = record e { told = e.told ++ events }

  -- The variables of `emit` when its dispatch begins.
  abbrev pub begun : String → P → List (Op P) → List (InternalListener P) → Emitter P → Progress P
  begun name payload before ls e = record {
    emitter = tell_all (run_guards payload ls).1 (apply_all before e);
    result = no_result name (length ls);
    to_remove = [];
  }

  pub emit_to :
      String
      → P
      → List (Op P)
      → List (List (Op P))
      → List (InternalListener P)
      → Emitter P
      → Emitter P × EmitOutcome
  unfolding run_guards dispatch finish apply_all
  emit_to name payload before meanwhile [] e = (e, resolved (no_result name 0))
  emit_to name payload before meanwhile (l ∷ ls) e = finish (
      dispatch payload meanwhile (run_guards payload (l ∷ ls)).0
        (begun name payload before (l ∷ ls) e))

  -- `before` runs while the guards are awaited.
  pub emit : String → P → List (Op P) → List (List (Op P)) → Emitter P → Emitter P × EmitOutcome
  unfolding matching_listeners emit_to
  emit name payload before meanwhile e =
      emit_to name payload before meanwhile (matching_listeners name e) e

  -- One round of the loop of `emitSync`. A promise is not waited for, and what it does later to the
  -- result and to `toRemove` comes after the clean-up.
  pub reply_now : InternalListener P → Reply → Progress P → Progress P
  reply_now l returns p = record {
    emitter = tell (fired l.id l.pattern) p.emitter;
    result = count_completed p.result;
    to_remove = to_remove_if_once l p.to_remove;
  }
  reply_now l (throws message) p = record p {
    result = count_failed l message p.result;
    to_remove = to_remove_if_once l p.to_remove;
  }
  reply_now l resolves_later p = record p { emitter = tell (fired l.id l.pattern) p.emitter }
  reply_now l (rejects_later message) p = record p {
    emitter = tell (fired l.id l.pattern) p.emitter;
  }

  abbrev pub reply_if : Bool → InternalListener P → Reply → Progress P → Progress P
  reply_if true l reply p = reply_now l reply p
  reply_if false l reply p = p

  pub dispatch_sync : P → List (InternalListener P) → Progress P → Progress P
  unfolding reply_now
  dispatch_sync payload [] p = p
  dispatch_sync payload (l ∷ ls) p =
      dispatch_sync payload ls (reply_if (is_eligible payload l) l (l.listener payload) p)

  pub emit_sync_to : String → P → List (InternalListener P) → Emitter P → Emitter P × EmitResult
  unfolding dispatch_sync remove_called
  emit_sync_to name payload [] e = (e, no_result name 0)
  emit_sync_to name payload (l ∷ ls) e =
      let p =
        dispatch_sync payload (l ∷ ls)
          (record { emitter = e; result = no_result name (length (l ∷ ls)); to_remove = [] }) in
      (remove_called p.to_remove p.emitter, p.result)

  pub emit_sync : String → P → Emitter P → Emitter P × EmitResult
  unfolding matching_listeners emit_sync_to
  emit_sync name payload e = emit_sync_to name payload (matching_listeners name e) e

-- An action on the emitter: an operation, or an emission with what runs while it waits.
pub data Action (P : Type 0) : Type 0 where
  operate : Op P → Action P
  emitting : String → P → List (Op P) → List (List (Op P)) → Action P
  emitting_sync : String → P → Action P

module _ {P : Type 0} where
  pub perform : Action P → Emitter P → Emitter P
  unfolding apply emit emit_sync
  perform (operate o) e = apply o e
  perform (emitting name payload before meanwhile) e = (emit name payload before meanwhile e).0
  perform (emitting_sync name payload) e = (emit_sync name payload e).0

  pub run : List (Action P) → Emitter P → Emitter P
  unfolding perform
  run [] e = e
  run (a ∷ as') e = run as' (perform a e)
