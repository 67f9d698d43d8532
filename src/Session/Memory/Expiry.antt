-- ===== src/Session/Memory/Expiry.antt =====
-- packages/session/src/backends/memory.ts: expiry, and the collection of expired sessions.
use nexusts.Prelude.{
  ℕ, ◌+◌, ◌<◌, ◌≡◌, refl, ap, ◌∙◌, false, not, Option, none, some, String, arith, length,
}
use nexusts.Prelude.JsMap
use nexusts.Prelude.JsMap.{JsMap}
use nexusts.Session.Records.{SessionRecord}
use nexusts.Session.Memory.{Storage, is_expired, has_passed, read_found, read, gc}

-- The session is there and neither limit has passed.
abbrev pub IsLive : ℕ → SessionRecord → Type 0
IsLive now r = (now < r.expires_at) × (has_passed now r.absolute_expires_at ≡ false)

kept_read :
    (now : ℕ) (id : String) (found : Option SessionRecord) (s t : Storage)
    → (read_found now id (JsMap.passes (λ k r. not (is_expired now r)) id found) s).1
      ≡ (read_found now id found t).1
unfolding read_found
kept_read now id none s t = refl
kept_read now id (some r) s t = ground arith

-- The collection of expired sessions cannot be seen: every read at the time gives the same before and
-- after it. What it reports is the number of sessions that are gone.
pub gc-read :
    (now : ℕ) (id : String) (s : Storage)
    → JsMap.Distinct s.sessions
    → ((read now id (gc now s).0).1 ≡ (read now id s).1)
      × ((gc now s).1 + length (gc now s).0.sessions ≡ length s.sessions)
unfolding read gc
gc-read now id s d = (
  ap (λ (found : Option SessionRecord). (read_found now id found (gc now s).0).1)
        (JsMap.get-keep (λ k r. not (is_expired now r)) id s.sessions d)
      ∙ kept_read now id (JsMap.get id s.sessions) (gc now s).0 s,
  JsMap.length-keep-add (λ k r. is_expired now r) s.sessions,
)
