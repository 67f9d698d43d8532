-- ===== src/Session/Records.antt =====
-- packages/session/src/types.ts: sessions, and the options of the calls. Times are in milliseconds;
-- the data of a session is a map of texts.
use nexusts.Prelude.{ℕ, true, false, Option, none, some, String, str_eq, ◌==◌, if◌then◌else◌}
use nexusts.Prelude.JsMap.{JsMap}

pub record SessionMetadata : Type 0 where
  pub ip_address : Option String
  pub user_agent : Option String
  pub fingerprint : Option String

pub record SessionRecord : Type 0 where
  pub id : String
  pub user_id : Option String
  pub fields : JsMap String
  pub created_at : ℕ
  pub last_seen_at : ℕ
  pub expires_at : ℕ
  pub absolute_expires_at : Option ℕ
  pub metadata : Option SessionMetadata

-- `user_id` is `none` where the option is missing or null.
pub record CreateSessionOptions : Type 0 where
  pub id : Option String
  pub user_id : Option String
  pub ttl_seconds : Option ℕ
  pub absolute_ttl_seconds : Option ℕ
  pub fields : Option (JsMap String)
  pub metadata : Option SessionMetadata

pub record UpdateSessionOptions : Type 0 where
  pub user_id : Option String
  pub patch : Option (JsMap String)
  pub extend_seconds : Option ℕ

pub record SessionQuery : Type 0 where
  pub user_id : Option String
  pub metadata : Option SessionMetadata
  pub offset : Option ℕ
  pub limit : Option ℕ

-- A number or a text that counts as true in a condition.
abbrev pub nonzero : Option ℕ → Option ℕ
nonzero none = none
nonzero (some n) = elim (n == 0) [ true ↦ none | false ↦ some n ]

abbrev pub nonempty : Option String → Option String
nonempty none = none
nonempty (some s) = if str_eq s "" then none else some s
