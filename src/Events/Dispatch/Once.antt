-- ===== src/Events/Dispatch/Once.antt =====
-- packages/events/src/emitter.ts: which listeners an emission removes.
use nexusts.Prelude.{
  ◌≡◌, refl, ap, ◌∙◌, Bool, false, not, ◌&&◌, Option, none, some, List, [], ◌∷◌, ◌++◌, String,
  arith, filter,
}
use nexusts.Events.Listener.{InternalListener}
use nexusts.Events.Emitter.{
  Emitter, remove_called, matches, matching_listeners, run_guards, is_eligible, ids_of, add_ids,
  without,
}
use nexusts.Events.Emitter.Ids.{Distinct, without-filter}
use nexusts.Events.Dispatch.{
  apply_all, Progress, settled, settle_listener, stop_or_go, begun, dispatch, finish, emit_to, emit,
}
use nexusts.Events.Dispatch.Results.{IsDone, dispatch-IsDone, run_guards-filter}

pub filter-filter {ℓ} :
    {A : Type ℓ} (p q : A → Bool) (xs : List A)
    → filter p (filter q xs) ≡ filter (λ x. q x && p x) xs
filter-filter p q [] = refl
filter-filter p q (x ∷ xs) = ground (arith, filter-filter p q xs)

module _ {P : Type 0} where
  pub without_none : (ls : List (InternalListener P)) → ls ≡ without [] ls
  without_none [] = refl
  without_none (l ∷ ls) = ap (λ (ms : List (InternalListener P)). l ∷ ms) (without_none ls)

  pub remove_called-listeners :
      (ms : List (InternalListener P)) (e : Emitter P)
      → (remove_called ms e).listeners ≡ without (add_ids (ids_of ms) []) e.listeners
  unfolding remove_called
  remove_called-listeners [] e = without_none e.listeners
  remove_called-listeners (l ∷ ms) e = refl

  -- The listeners that an emission removes.
  abbrev pub spent : String → P → InternalListener P → Bool
  spent name payload l = matches name l && (is_eligible payload l && l.once)

  pub settle_listener-listeners :
      (l : InternalListener P) (reply : Option String) (p : Progress P)
      → (settle_listener l reply p).0.emitter.listeners ≡ p.emitter.listeners
  unfolding settle_listener
  settle_listener-listeners l none p = refl
  settle_listener-listeners l (some m) p = refl

  stopped_listeners :
      (thrown : Option String) (q : Progress P) (rest : Progress P × Option String)
      (ls : List (InternalListener P))
      → q.emitter.listeners ≡ ls
      → rest.0.emitter.listeners ≡ ls
      → (stop_or_go thrown q rest).0.emitter.listeners ≡ ls
  stopped_listeners none q rest ls h k = k
  stopped_listeners (some m) q rest ls h k = h

  -- Nothing else runs: the loop leaves the listeners alone.
  pub dispatch-listeners :
      (payload : P) (ls : List (InternalListener P)) (p : Progress P)
      → (dispatch payload [] ls p).0.emitter.listeners ≡ p.emitter.listeners
  unfolding dispatch apply_all
  dispatch-listeners payload [] p = refl
  dispatch-listeners payload (l ∷ ls) p =
      let q : Progress P × Option String = settle_listener l (settled (l.listener payload)) p in
      let h : q.0.emitter.listeners ≡ p.emitter.listeners =
        settle_listener-listeners l (settled (l.listener payload)) p in
      stopped_listeners q.1 q.0 (dispatch payload [] ls q.0) p.emitter.listeners h
        (dispatch-listeners payload ls q.0 ∙ h)

  finished_listeners :
      (payload : P) (ls : List (InternalListener P)) (p : Progress P)
      (q : Progress P × Option String)
      → IsDone payload ls p q
      → q.0.emitter.listeners ≡ p.emitter.listeners
      → (finish q).0.listeners
        ≡ without (add_ids (ids_of (p.to_remove ++ filter (λ l. l.once) ls)) []) p.emitter.listeners
  unfolding finish
  finished_listeners payload ls p (q, none) d same =
      remove_called-listeners q.to_remove q.emitter
      ∙ ap
          (λ (ms : List (InternalListener P)). without (add_ids (ids_of ms) []) q.emitter.listeners)
          d.marked
      ∙ ap (without (add_ids (ids_of (p.to_remove ++ filter (λ l. l.once) ls)) [])) same
  finished_listeners payload ls p (q, some m) d same = absurd (cc (d.quiet))

  emit_to-listeners :
      (name : String) (payload : P) (ls : List (InternalListener P)) (e : Emitter P)
      → e.throw_on_error ≡ false
      → (emit_to name payload [] [] ls e).0.listeners
        ≡ without
            (add_ids (ids_of (filter (λ l. l.once) (filter (is_eligible payload) ls))) [])
            e.listeners
  unfolding emit_to apply_all
  emit_to-listeners name payload [] e h = without_none e.listeners
  emit_to-listeners name payload (l ∷ ls) e h =
      let eligible : List (InternalListener P) = (run_guards payload (l ∷ ls)).0 in
      let p : Progress P = begun name payload [] (l ∷ ls) e in
      finished_listeners payload eligible p (dispatch payload [] eligible p)
        (dispatch-IsDone payload [] eligible p h) (dispatch-listeners payload eligible p)
      ∙ ap
          (λ (ms : List (InternalListener P)).
            without (add_ids (ids_of (filter (λ x. x.once) ms)) []) e.listeners)
          (run_guards-filter payload (l ∷ ls))

  spent-filter :
      (name : String) (payload : P) (ls : List (InternalListener P))
      → filter (λ l. l.once) (filter (is_eligible payload) (filter (matches name) ls))
        ≡ filter (spent name payload) ls
  spent-filter name payload ls =
      filter-filter (λ l. l.once) (is_eligible payload) (filter (matches name) ls)
      ∙ filter-filter (λ l. is_eligible payload l && l.once) (matches name) ls

  -- Without `throwOnError`, and where nothing else runs meanwhile, an emission removes exactly the
  -- one-shot listeners that match the name and whose guards let the payload pass, and leaves the
  -- others in their order. The ids of the listeners differ.
  pub emit-once :
      (name : String) (payload : P) (e : Emitter P)
      → e.throw_on_error ≡ false
      → Distinct e.listeners
      → (emit name payload [] [] e).0.listeners
        ≡ filter (λ l. not (spent name payload l)) e.listeners
  unfolding emit matching_listeners
  emit-once name payload e h d =
      emit_to-listeners name payload (filter (matches name) e.listeners) e h
      ∙ ap (λ (ms : List (InternalListener P)). without (add_ids (ids_of ms) []) e.listeners)
          (spent-filter name payload e.listeners)
      ∙ without-filter (spent name payload) e.listeners d
