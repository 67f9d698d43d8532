-- ===== src/Events/Dispatch/Tests.antt =====
-- packages/events/src/emitter.ts: runs of small emitters.
use nexusts.Prelude.{
  ℕ, ◌≡◌, refl, true, false, not, none, some, List, [], ◌∷◌, ◌++◌, arith, filter, length,
}
use nexusts.Events.Pattern.{codes, atoms, test, compile_pattern, matches_regex}
use nexusts.Events.Pattern.Segments.{
  word, star, pattern_text, name_text, matches_parts, test_segments,
}
use nexusts.Events.Listener.{
  Reply, returns, throws, resolves_later, ListenerOptions, resolved, rejected,
}
use nexusts.Events.Emitter.{
  Emitter, subscribe, clear, constructed, on, off, new_listener, ids_of, matches, listener_count,
}
use nexusts.Events.Emitter.Sorting.{up_to, beyond}
use nexusts.Events.Emitter.Runs.{IsOrderly, constructed-IsOrderly, on-appends}
use nexusts.Events.Dispatch.{emit, emit_sync, Action, operate, run}
use nexusts.Events.Dispatch.Runs.{run-IsOrderly}
use nexusts.Events.Dispatch.Results.{called, completions, errors_of, emit-result}
use nexusts.Events.Dispatch.Once.{spent, emit-once}
use nexusts.Events.Dispatch.Rejections.{emit-rejects}
use nexusts.Events.Dispatch.Sync.{spent_sync, emit_sync-once}

abbrev plainly : ListenerOptions ℕ
plainly = record { priority = none; guard = none; once = none }

abbrev one_shot : ListenerOptions ℕ
one_shot = record { priority = some 1; guard = none; once = some true }

abbrev works : ℕ → Reply
works payload = returns

abbrev breaks : ℕ → Reply
breaks payload = throws "boom"

abbrev waits : ℕ → Reply
waits payload = resolves_later

abbrev strict : Emitter ℕ
unfolding constructed
strict = constructed none (some true) none

abbrev lax : Emitter ℕ
unfolding constructed
lax = constructed none none none

abbrev calls : List (Action ℕ)
calls =
    operate (subscribe 5 "user.*" works plainly)
    ∷ operate (subscribe 7 "user.created" breaks plainly)
    ∷ operate (subscribe 7 "user.created" waits one_shot)
    ∷ []

abbrev populated : Emitter ℕ
unfolding run
populated = run calls lax

abbrev populated_strict : Emitter ℕ
unfolding run
populated_strict = run calls strict

-- The one-shot listener has the lowest priority and comes first.
in_order : ids_of populated.listeners ≡ "evt-3" ∷ "evt-1" ∷ "evt-2" ∷ []
unfolding run constructed
in_order = refl

run-IsOrderly_example : IsOrderly 7 10 populated
unfolding run constructed
run-IsOrderly_example =
    run-IsOrderly 0 10 calls lax (omega arith) (constructed-IsOrderly 0 none none none)

test_segments_example :
    test
      (atoms (pattern_text (word (codes "user")) (star ∷ [])))
      (name_text (codes "user") (codes "created" ∷ []))
    ≡ matches_parts (word (codes "user")) (star ∷ []) (codes "user") (codes "created" ∷ [])
test_segments_example =
    test_segments (word (codes "user")) (star ∷ []) (codes "user") (codes "created" ∷ []) refl refl

sound : IsOrderly 7 10 populated
unfolding run constructed
sound = run-IsOrderly 0 10 calls lax (omega arith) (constructed-IsOrderly 0 none none none)

-- Two stars also stand for no character, and not for a line end.
two_stars :
    (matches_regex (compile_pattern "a.**") "a.**" "a." ≡ true)
    × (matches_regex (compile_pattern "a.**") "a.**" "a.b.c" ≡ true)
    × (matches_regex (compile_pattern "**") "**" "\n" ≡ false)
unfolding compile_pattern test
two_stars = (refl, refl, refl)

on-appends_example :
    (on 9 "x" works plainly populated).0.listeners
    ≡ up_to 5 populated.listeners
      ++ new_listener 9 "x" works plainly populated ∷ beyond 5 populated.listeners
unfolding run constructed
on-appends_example = on-appends 7 9 10 "x" works plainly populated (omega arith) sound (omega arith)

emit-result_example :
    (emit "user.created" 0 [] ((clear ∷ []) ∷ []) populated).1
    ≡ resolved (record {
      name = "user.created";
      matched = length (filter (matches "user.created") populated.listeners);
      completed = completions 0 (called "user.created" 0 populated.listeners);
      failed = length (errors_of 0 (called "user.created" 0 populated.listeners));
      errors = errors_of 0 (called "user.created" 0 populated.listeners);
    })
unfolding run constructed
emit-result_example = emit-result "user.created" 0 [] ((clear ∷ []) ∷ []) populated refl

emit-once_example :
    (emit "user.created" 0 [] [] populated).0.listeners
    ≡ filter (λ l. not (spent "user.created" 0 l)) populated.listeners
unfolding run constructed
emit-once_example = emit-once "user.created" 0 populated refl sound.distinct

emit-rejects_example :
    ((emit "user.created" 0 [] [] populated_strict).1 ≡ rejected "boom")
    × ((emit "user.created" 0 [] [] populated_strict).0.listeners ≡ populated_strict.listeners)
unfolding run constructed test compile_pattern
emit-rejects_example = emit-rejects "user.created" 0 populated_strict "boom" refl refl

emit_sync-once_example :
    (emit_sync "user.created" 0 populated).0.listeners
    ≡ filter (λ l. not (spent_sync "user.created" 0 l)) populated.listeners
unfolding run constructed
emit_sync-once_example = emit_sync-once "user.created" 0 populated sound.distinct

-- The one-shot listener gives a promise: `emit` removes it, `emitSync` does not.
promise_stays :
    (ids_of (emit "user.created" 0 [] [] populated).0.listeners ≡ "evt-1" ∷ "evt-2" ∷ [])
    × (ids_of (emit_sync "user.created" 0 populated).0.listeners ≡ "evt-3" ∷ "evt-1" ∷ "evt-2" ∷ [])
unfolding run constructed emit emit_sync test compile_pattern
promise_stays = (refl, refl)

counted : listener_count (some "user.created") (off "evt-3" populated).0 ≡ 1
unfolding run constructed off listener_count
counted = refl
