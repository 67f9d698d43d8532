-- ===== src/Session/Service/Rotation.antt =====
-- packages/session/src/session.service.ts: the rotation of an id.
use nexusts.Prelude.{
  ◌-◌, ◌/◌, ℕ, ◌+◌, ◌*◌, ◌≤◌, ◌<◌, ◌≡◌, refl, ap, ◌∙◌, max, true, false, Option, none, some, String,
  arith, str_eq, eq_iff, length, leb,
}
use nexusts.Prelude.JsMap
use nexusts.Prelude.JsMap.{JsMap}
use nexusts.Session.Records.{SessionRecord, nonzero}
use nexusts.Session.Memory.{Storage, user_is, is_expired, new_record, touched}
use nexusts.Session.Memory as Backend
use nexusts.Session.Service.{
  Service, rotated_options, seconds_left, limit_left, rotate_found, rotate, stored_in,
}

abbrev pub fresh_record : ℕ → String → SessionRecord → SessionRecord
fresh_record now random_id old = record (new_record now random_id (rotated_options now old)) {
  user_id = old.user_id;
}

stored_with_user :
    (now : ℕ) (random_id id : String) (old : SessionRecord) (s : Service)
    → JsMap.has random_id s.storage.sessions ≡ false
    → length s.storage.sessions < s.storage.max_sessions
    → Backend.write random_id
        (user_is old.user_id)
        (Backend.create now random_id (rotated_options now old) s.storage).0
      ≡ record s.storage {
        sessions = JsMap.set random_id (fresh_record now random_id old) (
            JsMap.set random_id
              (new_record now random_id (rotated_options now old))
              s.storage.sessions);
      }
unfolding Backend.write Backend.create Backend.evict_if_full new_record rotated_options
stored_with_user now random_id id old s new room =
    let x : SessionRecord = new_record now random_id (rotated_options now old) in
    let fits : leb (length (JsMap.set random_id x s.storage.sessions)) s.storage.max_sessions
        ≡ true =
      ground (arith, JsMap.length-set random_id x s.storage.sessions, new, room) in
    rw (fits, JsMap.get-set_self random_id x s.storage.sessions) refl

rotate_found-moves :
    (now : ℕ) (random_id id : String) (old : SessionRecord) (s : Service)
    → str_eq id random_id ≡ false
    → JsMap.has random_id s.storage.sessions ≡ false
    → length s.storage.sessions < s.storage.max_sessions
    → ((rotate_found now random_id id (some old) s).1 ≡ some (fresh_record now random_id old))
      × ((JsMap.get random_id (rotate_found now random_id id (some old) s).0.storage.sessions
            ≡ some (fresh_record now random_id old))
          × (JsMap.get id (rotate_found now random_id id (some old) s).0.storage.sessions ≡ none))
unfolding rotate_found Backend.destroy Backend.create
rotate_found-moves now random_id id old s other new room =
    let fresh : SessionRecord = fresh_record now random_id old in
    let stored : Storage =
      Backend.write random_id (user_is old.user_id)
        (Backend.create now random_id (rotated_options now old) s.storage).0 in
    let there : JsMap.get random_id stored.sessions ≡ some fresh =
      ap (λ (t : Storage). JsMap.get random_id t.sessions)
        (stored_with_user now random_id id old s new room)
      ∙ JsMap.get-set_self random_id fresh (
          JsMap.set random_id (new_record now random_id (rotated_options now old))
            s.storage.sessions) in
    (
      refl,
      (
        JsMap.get-delete id random_id stored.sessions ∙ rw other there,
        JsMap.get-delete_self id stored.sessions,
      ),
    )

rotate-fresh :
    (now : ℕ) (random_id id : String) (r : SessionRecord) (s : Service)
    → JsMap.get id s.storage.sessions ≡ some r
    → is_expired now r ≡ false
    → JsMap.has random_id s.storage.sessions ≡ false
    → length s.storage.sessions < s.storage.max_sessions
    → ((rotate now random_id id s).1 ≡ some (fresh_record now random_id (touched now r)))
      × ((JsMap.get random_id (rotate now random_id id s).0.storage.sessions
            ≡ some (fresh_record now random_id (touched now r)))
          × (JsMap.get id (rotate now random_id id s).0.storage.sessions ≡ none))
unfolding rotate Backend.read Backend.read_found
rotate-fresh now random_id id r s e live new room =
    let other : str_eq id random_id ≡ false =
      ground
        (arith, e, new, eq_iff id random_id, ap (λ (i : String). JsMap.get i s.storage.sessions)) in
    let after : Service =
      stored_in (record s.storage { sessions = JsMap.set id (touched now r) s.storage.sessions })
        s in
    let new_after : JsMap.has random_id after.storage.sessions ≡ false =
      ground (arith, new, other, JsMap.get-set id random_id (touched now r) s.storage.sessions) in
    let room_after : length after.storage.sessions < after.storage.max_sessions =
      ground (arith, e, room, JsMap.length-set id (touched now r) s.storage.sessions) in
    rw (e, live)
      (rotate_found-moves now random_id id (touched now r) after other new_after room_after)

-- A time limit in whole seconds from now, of a minute at least.
abbrev pub renewed : ℕ → ℕ → ℕ
renewed now time = now + max 60 ((time - now) / 1000) * 1000

abbrev pub renewed_limit : ℕ → Option ℕ → Option ℕ
renewed_limit now none = none
renewed_limit now (some time) = some (renewed now time)

-- The old session under the new id.
abbrev pub moved : ℕ → String → SessionRecord → SessionRecord
moved now random_id r = record {
  id = random_id;
  user_id = r.user_id;
  fields = r.fields;
  created_at = now;
  last_seen_at = now;
  expires_at = renewed now r.expires_at;
  absolute_expires_at = renewed_limit now r.absolute_expires_at;
  metadata = r.metadata;
}

renewed-touched : (now time : ℕ) → renewed now (now + max 60000 (time - now)) ≡ renewed now time
renewed-touched now time = omega arith

renewed-deadline :
    (now : ℕ) (limit : Option ℕ)
    → Backend.deadline now (nonzero (limit_left now limit)) ≡ renewed_limit now limit
unfolding seconds_left
renewed-deadline now none = refl
renewed-deadline now (some time) = ground arith

fresh-moved :
    (now : ℕ) (random_id : String) (r : SessionRecord)
    → fresh_record now random_id (touched now r) ≡ moved now random_id r
unfolding new_record rotated_options seconds_left touched
fresh-moved now random_id r =
    ap
      (λ (e : ℕ). record (moved now random_id r) {
        expires_at = e;
        absolute_expires_at = Backend.deadline now (nonzero (limit_left now r.absolute_expires_at));
      })
      (renewed-touched now r.expires_at)
    ∙ ap (λ (a : Option ℕ). record (moved now random_id r) { absolute_expires_at = a })
        (renewed-deadline now r.absolute_expires_at)

-- A rotation of a live session with an unused id, where the store has room, gives the session under
-- the new id with the user, the data and the metadata of the old one, its two limits in whole
-- seconds from now but a minute at least, and now as the time of its creation. The new id reads
-- this session, the old id none.
pub rotate-moves :
    (now : ℕ) (random_id id : String) (r : SessionRecord) (s : Service)
    → JsMap.get id s.storage.sessions ≡ some r
    → is_expired now r ≡ false
    → JsMap.has random_id s.storage.sessions ≡ false
    → length s.storage.sessions < s.storage.max_sessions
    → ((rotate now random_id id s).1 ≡ some (moved now random_id r))
      × ((JsMap.get random_id (rotate now random_id id s).0.storage.sessions
            ≡ some (moved now random_id r))
          × (JsMap.get id (rotate now random_id id s).0.storage.sessions ≡ none))
rotate-moves now random_id id r s e live new room =
    let (given, (stored, gone)) = rotate-fresh now random_id id r s e live new room in
    let same : some (fresh_record now random_id (touched now r)) ≡ some (moved now random_id r) =
      ap some (fresh-moved now random_id r) in
    (given ∙ same, (stored ∙ same, gone))

abbrev pub limit_of : Option SessionRecord → Option ℕ
limit_of none = none
limit_of (some r) = r.absolute_expires_at

abbrev pub rotated_limit : ℕ → ℕ → ℕ
unfolding seconds_left
rotated_limit now time = now + seconds_left now time * 1000

fresh-limit :
    (now time : ℕ) (random_id : String) (old : SessionRecord)
    → old.absolute_expires_at ≡ some time
    → (fresh_record now random_id old).absolute_expires_at ≡ some (rotated_limit now time)
unfolding new_record rotated_options seconds_left
fresh-limit now time random_id old e = rw e (ground arith)

rotated_limit-bounds :
    (now time : ℕ)
    → now < time
    → (now + 60000 ≤ rotated_limit now time) × (rotated_limit now time ≤ max time (now + 60000))
unfolding seconds_left
rotated_limit-bounds now time h = (omega arith, omega arith)

-- The absolute limit of a rotated session is no later than the old one, but for sessions with less
-- than a minute left: each rotation gives them a minute more, so the limit is passed.
pub rotate-limit :
    (now time : ℕ) (random_id id : String) (r : SessionRecord) (s : Service)
    → JsMap.get id s.storage.sessions ≡ some r
    → is_expired now r ≡ false
    → JsMap.has random_id s.storage.sessions ≡ false
    → length s.storage.sessions < s.storage.max_sessions
    → r.absolute_expires_at ≡ some time
    → (limit_of (rotate now random_id id s).1 ≡ some (rotated_limit now time))
      × ((now + 60000 ≤ rotated_limit now time) × (rotated_limit now time ≤ max time (now + 60000)))
unfolding is_expired touched
rotate-limit now time random_id id r s e live new room a = (
  ap limit_of (rotate-fresh now random_id id r s e live new room).0
      ∙ fresh-limit now time random_id (touched now r) a,
  rotated_limit-bounds now time (ground (arith, live, a)),
)
