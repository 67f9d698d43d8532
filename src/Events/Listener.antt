-- ===== src/Events/Listener.antt =====
-- packages/events/src/types.ts and emitter.ts: listeners, what they answer, and what the emitter
-- tells of itself.
use nexusts.Prelude.{ℕ, Bool, Option, List, String}
use nexusts.Events.Pattern.{Atom}

-- How a listener ends: it returns or throws at once, or gives a promise.
pub data Reply : Type 0 where
  returns : Reply
  throws : String → Reply
  resolves_later : Reply
  rejects_later : String → Reply

-- A guard answers, or throws.
pub data GuardAnswer : Type 0 where
  passes : GuardAnswer
  stops : GuardAnswer
  fails : GuardAnswer

pub record InternalListener (P : Type 0) : Type 0 where
  pub id : String
  pub pattern : String
  pub regex : Option (List Atom)
  pub priority : ℕ
  pub guard : Option (P → GuardAnswer)
  pub once : Bool
  pub listener : P → Reply
  pub created_at : ℕ

pub record ListenerOptions (P : Type 0) : Type 0 where
  pub priority : Option ℕ
  pub guard : Option (P → GuardAnswer)
  pub once : Option Bool

pub data EmitterEvent : Type 0 where
  registered : String → String → EmitterEvent
  removed : String → EmitterEvent
  fired : String → String → EmitterEvent
  failed : String → String → String → EmitterEvent
  skipped : String → String → EmitterEvent

pub record ListenerError : Type 0 where
  pub listener_id : String
  pub listener_name : String
  pub error : String

pub record EmitResult : Type 0 where
  pub name : String
  pub matched : ℕ
  pub completed : ℕ
  pub failed : ℕ
  pub errors : List ListenerError

pub data EmitOutcome : Type 0 where
  resolved : EmitResult → EmitOutcome
  rejected : String → EmitOutcome
