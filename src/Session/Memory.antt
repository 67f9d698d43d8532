-- ===== src/Session/Memory.antt =====
-- packages/session/src/backends/memory.ts: the sessions in memory. The clock and the random id of a
-- call are arguments. The timer of `start` calls `gc`. `create`, `read` and `update` give the stored
-- object itself: what a caller then writes to it is the call `writing`, on the record that is stored
-- under the id at that time. Callers write the user and the data of a session.
mod Kept
mod Users
mod Deadlines
mod Expiry
mod Eviction
mod Tests
use nexusts.Prelude.{
  ℕ, ◌+◌, ◌-◌, ◌*◌, max, Bool, true, false, not, ◌&&◌, ◌||◌, Option, none, some, List, [], ◌∷◌,
  String, str_eq, ltb, leb, if◌then◌else◌, length, filter, get_or_else, is_some, drop,
}
use nexusts.Prelude.JsMap
use nexusts.Prelude.JsMap.{JsMap}
use nexusts.Session.Records.{
  SessionMetadata, SessionRecord, CreateSessionOptions, UpdateSessionOptions, SessionQuery, nonzero,
  nonempty,
}

pub record Storage : Type 0 where
  pub sessions : JsMap SessionRecord
  pub max_sessions : ℕ

pub constructed : Option ℕ → Storage
constructed max = record { sessions = []; max_sessions = get_or_else max 100000 }

abbrev pub has_passed : ℕ → Option ℕ → Bool
has_passed now none = false
has_passed now (some time) = leb time now

unfoldable pub is_expired : ℕ → SessionRecord → Bool
is_expired now r = leb r.expires_at now || has_passed now r.absolute_expires_at

abbrev pub deadline : ℕ → Option ℕ → Option ℕ
deadline now none = none
deadline now (some seconds) = some (now + seconds * 1000)

-- The user of the options is not read.
unfoldable pub new_record : ℕ → String → CreateSessionOptions → SessionRecord
new_record now random_id opts = record {
  id = get_or_else opts.id random_id;
  user_id = none;
  fields = get_or_else opts.fields [];
  created_at = now;
  last_seen_at = now;
  expires_at = now + get_or_else opts.ttl_seconds 604800 * 1000;
  absolute_expires_at = deadline now (nonzero opts.absolute_ttl_seconds);
  metadata = opts.metadata;
}

abbrev pub oldest : JsMap SessionRecord → Option String
oldest [] = none
oldest ((id, r) ∷ m) = some id

abbrev pub delete_key : Option String → Storage → Storage
delete_key none s = s
delete_key (some id) s = record s { sessions = JsMap.delete id s.sessions }

-- `if (oldest)` is false for the empty text too.
unfoldable pub evict_if_full : Storage → Storage
evict_if_full s =
    if leb (length s.sessions) s.max_sessions
    then s
    else delete_key (nonempty (oldest s.sessions)) s

unfoldable pub create : ℕ → String → CreateSessionOptions → Storage → Storage × SessionRecord
unfolding new_record evict_if_full
create now random_id opts s =
    let r = new_record now random_id opts in
    (evict_if_full (record s { sessions = JsMap.set r.id r s.sessions }), r)

-- `lastSeenAt` is set before the rest of the lifetime is taken from it.
unfoldable pub touched : ℕ → SessionRecord → SessionRecord
touched now r = record r { last_seen_at = now; expires_at = now + max 60000 (r.expires_at - now) }

unfoldable pub read_found :
    ℕ → String → Option SessionRecord → Storage → Storage × Option SessionRecord
unfolding is_expired touched
read_found now id none s = (s, none)
read_found now id (some r) s =
    if is_expired now r
    then (record s { sessions = JsMap.delete id s.sessions }, none)
    else (record s { sessions = JsMap.set id (touched now r) s.sessions }, some (touched now r))

unfoldable pub read : ℕ → String → Storage → Storage × Option SessionRecord
unfolding read_found
read now id s = read_found now id (JsMap.get id s.sessions) s

pub touch : ℕ → String → Storage → Storage × Option SessionRecord
unfolding read
touch now id s = read now id s

-- `{ ...data, ...patch }`.
pub merge : JsMap String → JsMap String → JsMap String
merge fields [] = fields
merge fields ((k, v) ∷ patch) = merge (JsMap.set k v fields) patch

pub patched : Option (JsMap String) → SessionRecord → SessionRecord
unfolding merge
patched none r = r
patched (some patch) r = record r { fields = merge r.fields patch }

abbrev pub before_deadline : ℕ → Option ℕ → Bool
before_deadline expiry none = true
before_deadline expiry (some time) = ltb expiry time

abbrev pub extended : ℕ → Option ℕ → SessionRecord → SessionRecord
extended now none r = r
extended now (some seconds) r =
    if before_deadline (now + seconds * 1000) r.absolute_expires_at
    then record r { expires_at = now + seconds * 1000 }
    else r

-- The user of the options is not read here either.
pub updated : ℕ → UpdateSessionOptions → SessionRecord → SessionRecord
unfolding patched
updated now opts r = record (extended now opts.extend_seconds (patched opts.patch r)) {
  last_seen_at = now;
}

pub update_found :
    ℕ
    → String
    → UpdateSessionOptions
    → Option SessionRecord
    → Storage
    → Storage × Option SessionRecord
unfolding is_expired updated
update_found now id opts none s = (s, none)
update_found now id opts (some r) s =
    if is_expired now r then (record s { sessions = JsMap.delete id s.sessions }, none) else (
      record s { sessions = JsMap.set id (updated now opts r) s.sessions },
      some (updated now opts r),
    )

pub update : ℕ → String → UpdateSessionOptions → Storage → Storage × Option SessionRecord
unfolding update_found
update now id opts s = update_found now id opts (JsMap.get id s.sessions) s

unfoldable pub destroy : String → Storage → Storage × Bool
destroy id s = (record s { sessions = JsMap.delete id s.sessions }, JsMap.has id s.sessions)

abbrev pub same_option : Option String → Option String → Bool
same_option none none = true
same_option none (some t) = false
same_option (some s) none = false
same_option (some s) (some t) = str_eq s t

-- `query.userId !== undefined && r.userId !== query.userId` is false.
abbrev pub of_user : Option String → SessionRecord → Bool
of_user none r = true
of_user (some user) r = same_option r.user_id (some user)

pub destroy_many : SessionQuery → Storage → Storage × ℕ
destroy_many query s = (
  record s { sessions = JsMap.keep (λ id r. not (of_user query.user_id r)) s.sessions },
  length (JsMap.keep (λ id r. of_user query.user_id r) s.sessions),
)

pub gc : ℕ → Storage → Storage × ℕ
unfolding is_expired
gc now s = (
  record s { sessions = JsMap.keep (λ id r. not (is_expired now r)) s.sessions },
  length (JsMap.keep (λ id r. is_expired now r) s.sessions),
)

pub clear : Storage → Storage
clear s = record s { sessions = [] }

-- What a caller writes to a record that it was given.
pub data Edit : Type 0 where
  user_is : Option String → Edit
  fields_are : JsMap String → Edit

abbrev pub edited : Edit → SessionRecord → SessionRecord
edited (user_is user) r = record r { user_id = user }
edited (fields_are fields) r = record r { fields = fields }

abbrev pub write_found : String → Edit → Option SessionRecord → Storage → Storage
write_found id edit none s = s
write_found id edit (some r) s = record s { sessions = JsMap.set id (edited edit r) s.sessions }

unfoldable pub write : String → Edit → Storage → Storage
write id edit s = write_found id edit (JsMap.get id s.sessions) s

-- The calls, with their clocks, and the writes in between.
pub data Call : Type 0 where
  creating : ℕ → String → CreateSessionOptions → Call
  reading : ℕ → String → Call
  updating : ℕ → String → UpdateSessionOptions → Call
  destroying : String → Call
  destroying_many : SessionQuery → Call
  collecting : ℕ → Call
  clearing : Call
  writing : String → Edit → Call

pub perform : Call → Storage → Storage
unfolding create read update destroy destroy_many gc clear write
perform (creating now random_id opts) s = (create now random_id opts s).0
perform (reading now id) s = (read now id s).0
perform (updating now id opts) s = (update now id opts s).0
perform (destroying id) s = (destroy id s).0
perform (destroying_many query) s = (destroy_many query s).0
perform (collecting now) s = (gc now s).0
perform clearing s = clear s
perform (writing id edit) s = write id edit s

pub run : List Call → Storage → Storage
unfolding perform
run [] s = s
run (c ∷ cs) s = run cs (perform c s)
