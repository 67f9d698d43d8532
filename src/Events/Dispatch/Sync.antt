-- ===== src/Events/Dispatch/Sync.antt =====
-- packages/events/src/emitter.ts: emissions that do not wait.
use nexusts.Prelude.{
  ◌≡◌, refl, sym, ap, ◌∙◌, Bool, true, false, not, ◌&&◌, List, [], ◌∷◌, ◌++◌, String, arith, length,
  filter, append_assoc, append-nil,
}
use nexusts.Events.Listener.{
  Reply, returns, throws, resolves_later, rejects_later, InternalListener,
}
use nexusts.Events.Emitter.{
  Emitter, matches, matching_listeners, is_eligible, ids_of, add_ids, without,
}
use nexusts.Events.Emitter.Ids.{Distinct, without-filter}
use nexusts.Events.Dispatch.{
  Progress, reply_now, reply_if, dispatch_sync, emit_sync_to, emit_sync, no_result,
}
use nexusts.Events.Dispatch.Once.{without_none, filter-filter, remove_called-listeners}

abbrev pub answers_now : Reply → Bool
answers_now returns = true
answers_now (throws m) = true
answers_now resolves_later = false
answers_now (rejects_later m) = false

module _ {P : Type 0} where
  -- The listeners that the loop marks: called, one-shot, and no promise.
  abbrev pub marks : P → InternalListener P → Bool
  marks payload l = is_eligible payload l && (l.once && answers_now (l.listener payload))

  abbrev pub spent_sync : String → P → InternalListener P → Bool
  spent_sync name payload l = matches name l && marks payload l

  reply_now-marks :
      (l : InternalListener P) (reply : Reply) (p : Progress P)
      → ((reply_now l reply p).to_remove
          ≡ p.to_remove ++ filter (λ x. x.once && answers_now reply) (l ∷ []))
        × ((reply_now l reply p).emitter.listeners ≡ p.emitter.listeners)
  unfolding reply_now
  reply_now-marks l returns p = (ground (arith, append-nil p.to_remove), refl)
  reply_now-marks l (throws m) p = (ground (arith, append-nil p.to_remove), refl)
  reply_now-marks l resolves_later p = (ground (arith, append-nil p.to_remove), refl)
  reply_now-marks l (rejects_later m) p = (ground (arith, append-nil p.to_remove), refl)

  reply_if-marks :
      (test : Bool) (l : InternalListener P) (reply : Reply) (p : Progress P)
      → ((reply_if test l reply p).to_remove
          ≡ p.to_remove ++ filter (λ x. test && (x.once && answers_now reply)) (l ∷ []))
        × ((reply_if test l reply p).emitter.listeners ≡ p.emitter.listeners)
  reply_if-marks true l reply p = reply_now-marks l reply p
  reply_if-marks false l reply p = (sym (append-nil p.to_remove), refl)

  filter-cons :
      (f : InternalListener P → Bool) (l : InternalListener P) (ls : List (InternalListener P))
      → filter f (l ∷ []) ++ filter f ls ≡ filter f (l ∷ ls)
  filter-cons f l ls = ground arith

  dispatch_sync-marks :
      (payload : P) (ls : List (InternalListener P)) (p : Progress P)
      → ((dispatch_sync payload ls p).to_remove ≡ p.to_remove ++ filter (marks payload) ls)
        × ((dispatch_sync payload ls p).emitter.listeners ≡ p.emitter.listeners)
  unfolding dispatch_sync
  dispatch_sync-marks payload [] p = (sym (append-nil p.to_remove), refl)
  dispatch_sync-marks payload (l ∷ ls) p =
      let q : Progress P = reply_if (is_eligible payload l) l (l.listener payload) p in
      let (marked, same) = reply_if-marks (is_eligible payload l) l (l.listener payload) p in
      let (marked', same') = dispatch_sync-marks payload ls q in
      (
        marked'
            ∙ ap (λ (ms : List (InternalListener P)). ms ++ filter (marks payload) ls) marked
            ∙ append_assoc p.to_remove (filter (marks payload) (l ∷ [])) (filter (marks payload) ls)
            ∙ ap (λ (ms : List (InternalListener P)). p.to_remove ++ ms)
                (filter-cons (marks payload) l ls),
        same' ∙ same,
      )

  emit_sync_to-listeners :
      (name : String) (payload : P) (ls : List (InternalListener P)) (e : Emitter P)
      → (emit_sync_to name payload ls e).0.listeners
        ≡ without (add_ids (ids_of (filter (marks payload) ls)) []) e.listeners
  unfolding emit_sync_to
  emit_sync_to-listeners name payload [] e = without_none e.listeners
  emit_sync_to-listeners name payload (l ∷ ls) e =
      let p : Progress P =
        dispatch_sync payload (l ∷ ls)
          (record { emitter = e; result = no_result name (length (l ∷ ls)); to_remove = [] }) in
      let (marked, same) =
        dispatch_sync-marks payload (l ∷ ls)
          (record { emitter = e; result = no_result name (length (l ∷ ls)); to_remove = [] }) in
      remove_called-listeners p.to_remove p.emitter
      ∙ ap
          (λ (ms : List (InternalListener P)). without (add_ids (ids_of ms) []) p.emitter.listeners)
          marked
      ∙ ap (without (add_ids (ids_of (filter (marks payload) (l ∷ ls))) [])) same

  -- `emitSync` removes exactly the one-shot listeners that match, whose guards let the payload pass,
  -- and that return or throw at once. A one-shot listener that gives a promise is called and stays
  -- registered. The ids of the listeners differ.
  pub emit_sync-once :
      (name : String) (payload : P) (e : Emitter P)
      → Distinct e.listeners
      → (emit_sync name payload e).0.listeners
        ≡ filter (λ l. not (spent_sync name payload l)) e.listeners
  unfolding emit_sync matching_listeners
  emit_sync-once name payload e d =
      emit_sync_to-listeners name payload (filter (matches name) e.listeners) e
      ∙ ap (λ (ms : List (InternalListener P)). without (add_ids (ids_of ms) []) e.listeners)
          (filter-filter (marks payload) (matches name) e.listeners)
      ∙ without-filter (spent_sync name payload) e.listeners d
