-- ===== src/Cache/Memory/Tests.antt =====
-- packages/cache/src/stores/memory.ts: runs of the store, and the theorems at concrete inputs.
use nexusts.Prelude.{false, if◌then◌else◌, ℕ, ◌≡◌, refl, List, [], ◌∷◌, none, some, arith}
use nexusts.Prelude.JsMap
use nexusts.Cache.Memory.{MemoryStore, constructed, get, set, invalidate_by_tag, make_room}
use nexusts.Cache.Memory.Size.{Op, getting, setting, run, run-IsSound, IsSound}
use nexusts.Cache.Memory.Reads.{set-peek, peek}
use nexusts.Cache.Memory.Tags.{tagged, indexed}
use nexusts.Cache.Memory.Invalidation.{run-invalidates}

abbrev calls : List (Op ℕ)
calls =
    setting 0 "a" 1 0 (some ("t" ∷ []))
    ∷ setting 10 "b" 2 1 (some ("t" ∷ "u" ∷ []))
    ∷ getting 20 "a"
    ∷ setting 30 "c" 3 0 none
    ∷ []

abbrev tagged_calls : List (Op ℕ)
tagged_calls = setting 0 "a" 1 0 (some ("t" ∷ [])) ∷ setting 10 "b" 2 1 (some ("u" ∷ [])) ∷ []

abbrev two_entries : MemoryStore ℕ
two_entries = record {
  entries =
      ("a", record { value = 1; expires_at = 0; tags = none })
      ∷ ("b", record { value = 2; expires_at = 1010; tags = none })
      ∷ [];
  tag_index = [];
  max = 2;
}

-- The read of `a` made `b` the oldest key.
lru_eviction : JsMap.keys (run calls (constructed 2)).entries ≡ "a" ∷ "c" ∷ []
unfolding run set get make_room
lru_eviction = refl

-- A write to a present key keeps its place: `a` is still the oldest.
write_keeps_place :
    JsMap.keys (set 0 "c" 3 0 none (set 0 "a" 9 0 none two_entries)).entries ≡ "b" ∷ "c" ∷ []
unfolding set make_room
write_keeps_place = refl

run-IsSound_example : IsSound 2 (run calls (constructed 2))
run-IsSound_example = run-IsSound 2 calls

set-peek_example : peek 100 "a" (set 50 "c" 3 1 none two_entries) ≡ none
set-peek_example = set-peek 50 100 "c" "a" 3 1 none two_entries (omega arith)

run-invalidates_example :
    let s = run tagged_calls (constructed 5) in
    (tagged "t" "a" (invalidate_by_tag "t" s).0 ≡ false)
    × (JsMap.get "a" (invalidate_by_tag "t" s).0.entries
        ≡ (if indexed "t" "a" s.tag_index then none else JsMap.get "a" s.entries))
run-invalidates_example = run-invalidates 5 tagged_calls "t" "a"
