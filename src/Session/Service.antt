-- ===== src/Session/Service.antt =====
-- packages/session/src/session.service.ts, over the sessions in memory. What the listeners are told is
-- a log. The clock stands still within a call.
mod Rotation
mod Tests
use nexusts.Prelude.{
  ℕ, ◌+◌, ◌-◌, ◌*◌, ◌/◌, max, Bool, true, false, Option, none, some, List, [], ◌∷◌, ◌++◌, String,
  if◌then◌else◌, get_or_else,
}
use nexusts.Prelude.JsMap
use nexusts.Prelude.JsMap.{JsMap}
use nexusts.Session.Records.{SessionRecord, CreateSessionOptions, UpdateSessionOptions}
use nexusts.Session.Memory.{Storage, user_is}
use nexusts.Session.Memory as Backend

pub data Reason : Type 0 where
  logout : Reason
  expired : Reason
  admin : Reason
  unknown : Reason

pub data SessionEvent : Type 0 where
  created : String → Option String → SessionEvent
  was_read : String → SessionEvent
  was_updated : String → SessionEvent
  destroyed : String → Option String → Reason → SessionEvent
  has_expired : String → SessionEvent
  rotated : String → String → SessionEvent

pub record Service : Type 0 where
  pub storage : Storage
  pub default_ttl_seconds : Option ℕ
  pub default_absolute_ttl_seconds : Option ℕ
  pub told : List SessionEvent

abbrev pub emit : SessionEvent → Service → Service
emit event s = record s { told = s.told ++ event ∷ [] }

abbrev pub stored_in : Storage → Service → Service
stored_in storage s = record s { storage = storage }

abbrev pub given_or : Option ℕ → Option ℕ → Option ℕ
given_or none other = other
given_or (some n) other = some n

-- The options have no member that is there and undefined.
abbrev pub with_defaults : Service → CreateSessionOptions → CreateSessionOptions
with_defaults s opts = record opts {
  ttl_seconds = given_or opts.ttl_seconds s.default_ttl_seconds;
  absolute_ttl_seconds = given_or opts.absolute_ttl_seconds s.default_absolute_ttl_seconds;
}

pub create : ℕ → String → CreateSessionOptions → Service → Service × SessionRecord
create now random_id opts s =
    let r = Backend.create now random_id (with_defaults s opts) s.storage in
    (emit (created r.1.id r.1.user_id) (stored_in r.0 s), r.1)

pub read : ℕ → String → Service → Service × Option SessionRecord
read now id s = let r = Backend.read now id s.storage in (emit (was_read id) (stored_in r.0 s), r.1)

pub tell_update : String → Option SessionRecord → Service → Service
tell_update id none s = s
tell_update id (some r) s = emit (was_updated id) s

pub update : ℕ → String → UpdateSessionOptions → Service → Service × Option SessionRecord
unfolding tell_update
update now id opts s =
    let r = Backend.update now id opts s.storage in (tell_update id r.1 (stored_in r.0 s), r.1)

abbrev pub user_of : Option SessionRecord → Option String
user_of none = none
user_of (some r) = r.user_id

pub destroy : ℕ → String → Reason → Service → Service × Bool
destroy now id reason s =
    let r = Backend.read now id s.storage in
    let d = Backend.destroy id r.0 in
    let s' = stored_in d.0 s in
    (if d.1 then emit (destroyed id (user_of r.1) reason) s' else s', d.1)

pub seconds_left : ℕ → ℕ → ℕ
seconds_left now time = max 60 ((time - now) / 1000)

abbrev pub limit_left : ℕ → Option ℕ → Option ℕ
unfolding seconds_left
limit_left now none = none
limit_left now (some time) = some (seconds_left now time)

pub rotated_options : ℕ → SessionRecord → CreateSessionOptions
unfolding seconds_left
rotated_options now old = record {
  id = none;
  user_id = none;
  ttl_seconds = some (seconds_left now old.expires_at);
  absolute_ttl_seconds = limit_left now old.absolute_expires_at;
  fields = some old.fields;
  metadata = old.metadata;
}

-- The user is written to the record that `create` has given, which is the one that is stored.
pub rotate_found :
    ℕ → String → String → Option SessionRecord → Service → Service × Option SessionRecord
unfolding rotated_options
rotate_found now random_id id none s = (s, none)
rotate_found now random_id id (some old) s =
    let made = Backend.create now random_id (rotated_options now old) s.storage in
    let fresh = record made.1 { user_id = old.user_id } in
    let left = Backend.destroy id (Backend.write fresh.id (user_is old.user_id) made.0) in
    (emit (rotated id fresh.id) (stored_in left.0 s), some fresh)

pub rotate : ℕ → String → String → Service → Service × Option SessionRecord
unfolding rotate_found
rotate now random_id id s =
    let r = Backend.read now id s.storage in rotate_found now random_id id r.1 (stored_in r.0 s)
