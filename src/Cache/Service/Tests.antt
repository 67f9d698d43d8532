-- ===== src/Cache/Service/Tests.antt =====
-- packages/cache/src/cache.service.ts: runs of the service, and its theorems at concrete inputs.
use nexusts.Prelude.{ℕ, ◌≡◌, refl, List, [], ◌∷◌, none, some, str_eq}
use nexusts.Cache.Memory
use nexusts.Cache.Memory.{constructed}
use nexusts.Cache.Service.{
  new_service, Call, setting, by_default, with_options, get, set, invalidate_by_tag, run,
}

abbrev one_call : List (Call ℕ)
one_call = setting 0 "user" 5 (with_options none (some ("users" ∷ []))) ∷ []

-- A value is read until its time to live is over.
reads_back : (get 59999 "a" (set 0 "a" 1 by_default (new_service {V = ℕ} 2 60 "app"))).1 ≡ some 1
unfolding get set Memory.get Memory.set Memory.make_room
reads_back = refl

expires : (get 60000 "a" (set 0 "a" 1 by_default (new_service {V = ℕ} 2 60 "app"))).1 ≡ none
unfolding get set Memory.get Memory.set Memory.make_room
expires = refl

-- The entry that was written with the tag is still there.
survives :
    (get 1 "user" (invalidate_by_tag "users" (run str_eq one_call (new_service 5 60 "app"))).0).1
    ≡ some 5
unfolding get set run invalidate_by_tag Memory.get Memory.set Memory.make_room
    Memory.invalidate_by_tag
survives = refl
