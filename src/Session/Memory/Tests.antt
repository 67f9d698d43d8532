-- ===== src/Session/Memory/Tests.antt =====
-- packages/session/src/backends/memory.ts: runs of small stores.
use nexusts.Prelude.{◌≡◌, ◌+◌, refl, none, some, List, [], ◌∷◌, arith, length}
use nexusts.Prelude.JsMap
use nexusts.Prelude.JsMap.{JsMap}
use nexusts.Session.Records.{
  SessionRecord, CreateSessionOptions, UpdateSessionOptions, SessionQuery,
}
use nexusts.Session.Memory.{
  writing, user_is, Storage, constructed, new_record, touched, create, read, destroy_many, gc, Call,
  creating, reading, updating, collecting, run,
}
use nexusts.Session.Memory.Users.{run-destroys_none}
use nexusts.Session.Memory.Deadlines.{run-limited}
use nexusts.Session.Memory.Expiry.{gc-read}
use nexusts.Session.Memory.Eviction.{IsBounded, run-IsBounded}

abbrev of_alice : CreateSessionOptions
of_alice = record {
  id = none;
  user_id = some "alice";
  ttl_seconds = some 600;
  absolute_ttl_seconds = some 3600;
  fields = some (("theme", "dark") ∷ []);
  metadata = none;
}

abbrev for_longer : UpdateSessionOptions
for_longer = record {
  user_id = some "alice";
  patch = some (("theme", "light") ∷ []);
  extend_seconds = some 3000;
}

abbrev alice : SessionQuery
alice = record { user_id = some "alice"; metadata = none; offset = none; limit = none }

abbrev day : List Call
day =
    creating 1000 "s1" of_alice
    ∷ reading 2000 "s1"
    ∷ updating 3000 "s1" for_longer
    ∷ creating 4000 "s2" of_alice
    ∷ collecting 700000
    ∷ []

abbrev seen : SessionRecord
seen = record {
  id = "s1";
  user_id = none;
  fields = [];
  created_at = 0;
  last_seen_at = 0;
  expires_at = 70000;
  absolute_expires_at = some 9000000;
  metadata = none;
}

abbrev one_session : Storage
one_session = record { sessions = ("s1", seen) ∷ []; max_sessions = 1 }

updates_the_data :
    JsMap.map_values (λ r. r.fields) (run day (constructed none)).sessions
    ≡ ("s1", ("theme", "light") ∷ []) ∷ []
unfolding run new_record touched constructed
updates_the_data = refl

-- Two sessions whose users the caller writes to the records that it was given: one is removed.
destroys_the_written :
    (destroy_many alice (
      run
        (creating 0 "a" of_alice
          ∷ creating 0 "b" of_alice
          ∷ writing "a" (user_is (some "alice"))
          ∷ writing "b" (user_is (some "bob"))
          ∷ [])
        (constructed none))).1
    ≡ 1
unfolding run constructed destroy_many
destroys_the_written = refl

run-destroys_none_example :
    destroy_many alice (run day (constructed none)) ≡ (run day (constructed none), 0)
run-destroys_none_example = run-destroys_none day "alice" alice none tt refl

run-limited_example :
    (read 3601000 "s1"
      (run (updating 2000 "s1" for_longer ∷ []) (create 1000 "s1" of_alice (constructed none)).0)).1
    ≡ none
unfolding constructed
run-limited_example =
    run-limited 1000 3601000 3600 "s1" of_alice (constructed none)
      (updating 2000 "s1" for_longer ∷ []) refl (omega arith) refl tt (omega arith)

gc-read_example :
    ((read 80000 "s1" (gc 80000 one_session).0).1 ≡ (read 80000 "s1" one_session).1)
    × ((gc 80000 one_session).1 + length (gc 80000 one_session).0.sessions
        ≡ length one_session.sessions)
gc-read_example = gc-read 80000 "s1" one_session (refl, tt)

run-IsBounded_example : IsBounded 100000 (run day (constructed none))
unfolding constructed
run-IsBounded_example =
    run-IsBounded 100000 day (constructed none) (refl, (tt, (tt, (refl, (tt, tt)))))
      (record { distinct = tt; named = refl; fits = omega arith; same = refl })
