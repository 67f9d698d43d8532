-- ===== src/Events/Dispatch/Rejections.antt =====
-- packages/events/src/emitter.ts: emissions with `throwOnError`.
use nexusts.Prelude.{◌≡◌, ap, ◌∙◌, true, Option, none, some, List, [], ◌∷◌, String, filter}
use nexusts.Events.Listener.{InternalListener, rejected}
use nexusts.Events.Emitter.{Emitter, matches, matching_listeners, run_guards, is_eligible}
use nexusts.Events.Dispatch.{
  apply_all, Progress, settled, settle_listener, stop_or_go, begun, dispatch, finish, emit_to, emit,
}
use nexusts.Events.Dispatch.Results.{run_guards-filter, called}
use nexusts.Events.Dispatch.Once.{dispatch-listeners}

abbrev pub or_error : Option String → Option String → Option String
or_error none later = later
or_error (some m) later = some m

module _ {P : Type 0} where
  -- The first error of the listeners that are called.
  abbrev pub first_error : P → List (InternalListener P) → Option String
  first_error payload [] = none
  first_error payload (l ∷ ls) = or_error (settled (l.listener payload)) (first_error payload ls)

  round_stops :
      (l : InternalListener P) (reply later : Option String) (p : Progress P) (m : String)
      (rest : Progress P × Option String)
      → p.emitter.throw_on_error ≡ true
      → or_error reply later ≡ some m
      → (later ≡ some m → rest.1 ≡ some m)
      → (stop_or_go (settle_listener l reply p).1 (settle_listener l reply p).0 rest).1 ≡ some m
  unfolding settle_listener
  round_stops l none later p m rest h e more = more e
  round_stops l (some x) later p m rest h e more = rw h e

  throws_on :
      (l : InternalListener P) (reply : Option String) (p : Progress P)
      → p.emitter.throw_on_error ≡ true
      → (settle_listener l reply p).0.emitter.throw_on_error ≡ true
  unfolding settle_listener
  throws_on l none p h = h
  throws_on l (some x) p h = h

  dispatch_stops :
      (payload : P) (ls : List (InternalListener P)) (p : Progress P) (m : String)
      → p.emitter.throw_on_error ≡ true
      → first_error payload ls ≡ some m
      → (dispatch payload [] ls p).1 ≡ some m
  unfolding dispatch apply_all
  dispatch_stops payload [] p m h e = absurd (cc)
  dispatch_stops payload (l ∷ ls) p m h e =
      let q : Progress P × Option String = settle_listener l (settled (l.listener payload)) p in
      round_stops l (settled (l.listener payload)) (first_error payload ls) p m
        (dispatch payload [] ls q.0) h e
        (dispatch_stops payload ls q.0 m (throws_on l (settled (l.listener payload)) p h))

  -- A rejection leaves the emitter of the loop as it is.
  finish_stopped :
      (q : Progress P × Option String) (m : String) (ls : List (InternalListener P))
      → q.1 ≡ some m
      → q.0.emitter.listeners ≡ ls
      → ((finish q).1 ≡ rejected m) × ((finish q).0.listeners ≡ ls)
  unfolding finish
  finish_stopped (q, none) m ls e h = absurd (cc)
  finish_stopped (q, some x) m ls e h = (cc, h)

  emit_to-stopped :
      (name : String) (payload : P) (ls : List (InternalListener P)) (e : Emitter P) (m : String)
      → e.throw_on_error ≡ true
      → first_error payload (filter (is_eligible payload) ls) ≡ some m
      → ((emit_to name payload [] [] ls e).1 ≡ rejected m)
        × ((emit_to name payload [] [] ls e).0.listeners ≡ e.listeners)
  unfolding emit_to apply_all
  emit_to-stopped name payload [] e m h f = absurd (cc)
  emit_to-stopped name payload (l ∷ ls) e m h f =
      let eligible : List (InternalListener P) = (run_guards payload (l ∷ ls)).0 in
      let p : Progress P = begun name payload [] (l ∷ ls) e in
      finish_stopped (dispatch payload [] eligible p) m e.listeners
        (dispatch_stops payload eligible p m h
          (ap (first_error payload) (run_guards-filter payload (l ∷ ls)) ∙ f))
        (dispatch-listeners payload eligible p)

  -- With `throwOnError` an emission rejects with the first error of the listeners that it calls, and
  -- removes no listener: the one-shot listeners that have run, the failing one included, stay
  -- registered. Nothing else runs meanwhile.
  pub emit-rejects :
      (name : String) (payload : P) (e : Emitter P) (m : String)
      → e.throw_on_error ≡ true
      → first_error payload (called name payload e.listeners) ≡ some m
      → ((emit name payload [] [] e).1 ≡ rejected m)
        × ((emit name payload [] [] e).0.listeners ≡ e.listeners)
  unfolding emit matching_listeners
  emit-rejects name payload e m h f =
      emit_to-stopped name payload (filter (matches name) e.listeners) e m h f
