-- ===== src/Session/Service/Tests.antt =====
-- packages/session/src/session.service.ts: runs of a small service.
use nexusts.Prelude.{◌+◌, ◌≡◌, ◌≤◌, refl, none, some, [], ◌∷◌, arith, max}
use nexusts.Prelude.JsMap
use nexusts.Session.Records.{SessionRecord}
use nexusts.Session.Memory.{Storage, touched, is_expired}
use nexusts.Session.Memory as Backend
use nexusts.Session.Service.{Service, destroyed, rotated, logout, destroy, rotate}
use nexusts.Session.Service.Rotation.{moved, rotate-moves, limit_of, rotated_limit, rotate-limit}

abbrev signed_in : SessionRecord
signed_in = record {
  id = "s1";
  user_id = some "alice";
  fields = ("theme", "dark") ∷ [];
  created_at = 0;
  last_seen_at = 0;
  expires_at = 600000;
  absolute_expires_at = some 50000;
  metadata = none;
}

abbrev service : Service
service = record {
  storage = record { sessions = ("s1", signed_in) ∷ []; max_sessions = 10 };
  default_ttl_seconds = none;
  default_absolute_ttl_seconds = none;
  told = [];
}

-- The log of a rotation and a sign-out.
tells :
    (destroy 41000 "s2" logout (rotate 40000 "s2" "s1" service).0).0.told
    ≡ rotated "s1" "s2" ∷ destroyed "s2" (some "alice") logout ∷ []
unfolding rotate destroy Backend.destroy Backend.read Backend.create Backend.write
tells = refl

rotate-moves_example :
    ((rotate 40000 "s2" "s1" service).1 ≡ some (moved 40000 "s2" signed_in))
    × ((JsMap.get "s2" (rotate 40000 "s2" "s1" service).0.storage.sessions
          ≡ some (moved 40000 "s2" signed_in))
        × (JsMap.get "s1" (rotate 40000 "s2" "s1" service).0.storage.sessions ≡ none))
unfolding is_expired
rotate-moves_example = rotate-moves 40000 "s2" "s1" signed_in service refl refl refl (omega arith)

rotate-limit_example :
    (limit_of (rotate 40000 "s2" "s1" service).1 ≡ some (rotated_limit 40000 50000))
    × ((40000 + 60000 ≤ rotated_limit 40000 50000)
        × (rotated_limit 40000 50000 ≤ max 50000 (40000 + 60000)))
unfolding is_expired
rotate-limit_example =
    rotate-limit 40000 50000 "s2" "s1" signed_in service refl refl refl (omega arith) refl
