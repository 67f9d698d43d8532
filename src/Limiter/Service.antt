-- ===== src/Limiter/Service.antt =====
-- packages/limiter/src/limiter.middleware.ts and limiter.service.ts over the in-memory storage. The
-- test that a rule's glob makes of a path and the upper case of a text are arguments, and a request
-- is of any type: a rule has functions of it.
pub mod Shared
mod Tests
use nexusts.Prelude.{
  ℕ, ◌+◌, ◌*◌, Bool, true, false, not, ◌&&◌, ◌||◌, List, [], ◌∷◌, Option, none, some, String,
  str_eq, if◌then◌else◌, get_or_else,
}
use nexusts.Limiter.Memory.{RateLimitStrategy, sliding_window, RateLimitResult, Storage, consume}

pub data TimeUnit : Type 0 where
  seconds minutes hours days : TimeUnit

-- A number, a text of a number and a unit, or any other text.
pub data DurationLike : Type 0 where
  milliseconds : ℕ → DurationLike
  text : ℕ → TimeUnit → DurationLike
  malformed : String → DurationLike

abbrev pub unit_ms : TimeUnit → ℕ
unit_ms seconds = 1000
unit_ms minutes = 60000
unit_ms hours = 3600000
unit_ms days = 86400000

-- `none` where the code throws.
abbrev pub duration_to_ms : DurationLike → Option ℕ
duration_to_ms (milliseconds n) = some n
duration_to_ms (text n u) = some (n * unit_ms u)
duration_to_ms (malformed t) = none

pub record RateLimitRule (R : Type 0) : Type 0 where
  pub path : String
  pub methods : Option (List String)
  pub points : ℕ
  pub duration : DurationLike
  pub key : Option (R → Option String)
  pub strategy : Option RateLimitStrategy
  pub skip : Option (R → Bool)

-- How the middleware ends: it goes on, it rejects with a result, or a duration throws.
pub data Verdict : Type 0 where
  passed : Verdict
  rejected : RateLimitResult → Verdict
  threw : Verdict

abbrev pub is_passed : Verdict → Bool
is_passed passed = true
is_passed (rejected r) = false
is_passed threw = false

abbrev pub includes : String → (String → String) → List String → Bool
includes method upper [] = false
includes method upper (m ∷ ms) = str_eq (upper m) method || includes method upper ms

abbrev pub method_matches : String → (String → String) → Option (List String) → Bool
method_matches method upper none = true
method_matches method upper (some []) = true
method_matches method upper (some (m ∷ ms)) = includes method upper (m ∷ ms)

module _ {R : Type 0} (upper : String → String) (glob : String → String → Bool) where
  abbrev pub matches : RateLimitRule R → String → String → Bool
  matches rule method path =
      method_matches method upper rule.methods && (str_eq rule.path "**" || glob rule.path path)

module _ {R : Type 0} where
  abbrev pub skips : RateLimitRule R → R → Bool
  skips rule c = elim rule.skip [ none ↦ false | some f ↦ f c ]

  abbrev pub key_of : (R → Option String) → RateLimitRule R → R → String
  key_of default_key rule c = get_or_else (get_or_else rule.key default_key c) "unknown"

  unfoldable pub check : ℕ → String → RateLimitRule R → Storage → Option (Storage × RateLimitResult)
  check now key rule s = elim (duration_to_ms rule.duration) [
    | none ↦ none
    | some duration ↦
        some (consume key 1 rule.points duration now (get_or_else rule.strategy sliding_window) s)
  ]

-- A request as the middleware reads it.
pub record Request (R : Type 0) : Type 0 where
  pub method : String
  pub path : String
  pub context : R

module _ {R : Type 0} (upper : String → String) (glob : String → String → Bool)
    (default_key : R → Option String) (now : ℕ) (c : Request R) where
  -- Whether the rule is checked for the request.
  abbrev pub applies : RateLimitRule R → Bool
  applies rule = matches upper glob rule (upper c.method) c.path && not (skips rule c.context)

  -- What follows the check of a rule; `rest` is the rest of the loop.
  unfoldable pub after_check :
      (Storage → Storage × Verdict)
      → Storage
      → Option (Storage × RateLimitResult)
      → Storage × Verdict
  after_check rest s none = (s, threw)
  after_check rest s (some checked) =
      if checked.1.allowed then rest checked.0 else (checked.0, rejected checked.1)

  -- The loop of the middleware over the rules.
  unfoldable pub handle : List (RateLimitRule R) → Storage → Storage × Verdict
  unfolding after_check
  handle [] s = (s, passed)
  handle (rule ∷ rules) s =
      let rest = handle rules in
      if applies rule
      then after_check rest s (check now (key_of default_key rule c.context) rule s)
      else rest s
