-- ===== src/Schedule/Cron.antt =====
-- packages/schedule/src/cron-parser.ts: the fields of an expression, and which dates match it. The
-- texts are taken as they are split: a field at its commas, a part at `/` and `-`, blanks removed.
-- `to_number` is JavaScript's `Number` on the text of a whole number, `none` for `NaN`, and `upper`
-- is its `toUpperCase`.
pub mod Fields
pub mod Days
mod Tests
use nexusts.Prelude.{
  ℕ, zero, suc, ◌+◌, ◌%◌, Bool, true, false, not, ◌&&◌, ◌||◌, List, [], ◌∷◌, ◌++◌, Option, none,
  some, String, str_eq, leb, ltb, ◌==◌, if◌then◌else◌, get_or_else,
}
use nexusts.Prelude.JsMap
use nexusts.Prelude.JsMap.{JsMap}

-- The text before a step.
pub data Base : Type 0 where
  star : Base
  span : String → String → Base
  single : String → Base

pub record Part : Type 0 where
  pub base : Base
  pub step : Option ℕ

-- What a field gives: its values, an error, or a loop that does not end (a step of 0).
pub data Parsed : Type 0 where
  values : List ℕ → Parsed
  throws : Parsed
  loops : Parsed

abbrev pub field_names : JsMap ℕ
field_names =
    ("JAN", 1)
    ∷ ("FEB", 2)
    ∷ ("MAR", 3)
    ∷ ("APR", 4)
    ∷ ("MAY", 5)
    ∷ ("JUN", 6)
    ∷ ("JUL", 7)
    ∷ ("AUG", 8)
    ∷ ("SEP", 9)
    ∷ ("OCT", 10)
    ∷ ("NOV", 11)
    ∷ ("DEC", 12)
    ∷ ("SUN", 0)
    ∷ ("MON", 1)
    ∷ ("TUE", 2)
    ∷ ("WED", 3)
    ∷ ("THU", 4)
    ∷ ("FRI", 5)
    ∷ ("SAT", 6)
    ∷ []

-- The `for` loop over the values; `fuel` above the difference of the ends is enough for a step.
unfoldable pub steps : (fuel i end step : ℕ) → List ℕ
steps zero i end step = []
steps (suc fuel) i end step =
    let rest = steps fuel (i + step) end step in if leb i end then i ∷ rest else []

unfoldable pub loop_values : ℕ → ℕ → ℕ → Parsed
unfolding steps
loop_values start end step =
    if ltb end start
    then throws
    else if step == 0
    then loops
    else values (steps (suc end) start end step)

abbrev pub contains : ℕ → List ℕ → Bool
contains n [] = false
contains n (x ∷ xs) = x == n || contains n xs

module _ (upper : String → String) (to_number : String → Option ℕ) where
  -- `none` where the code throws.
  unfoldable pub resolve_value : ℕ → ℕ → String → Option ℕ
  resolve_value lo hi t = if str_eq t "*" then some lo else elim (JsMap.get (upper t) field_names) [
    | some n ↦ some n
    | none ↦ elim (to_number t) [
      | none ↦ none
      | some n ↦ if ltb n lo || ltb hi n then none else some n
    ]
  ]

  -- The ends of the loop.
  unfoldable pub ends : ℕ → ℕ → Part → Option (ℕ × ℕ)
  unfolding resolve_value
  ends lo hi p = elim p.base [
    | star ↦ some (lo, hi)
    | span a b ↦ elim (resolve_value lo hi a) [
      | none ↦ none
      | some start ↦ elim (resolve_value lo hi b) [ none ↦ none | some end ↦ some (start, end) ]
    ]
    | single a ↦ elim (resolve_value lo hi a) [
      | none ↦ none
      | some v ↦ some (v, elim p.step [ none ↦ v | some step ↦ hi ])
    ]
  ]

  unfoldable pub part_values : ℕ → ℕ → Part → Parsed
  unfolding ends loop_values
  part_values lo hi p = elim (ends lo hi p) [
    | none ↦ throws
    | some range ↦ loop_values range.0 range.1 (get_or_else p.step 1)
  ]

  abbrev pub union : Parsed → Parsed → Parsed
  union throws q = throws
  union loops q = loops
  union (values xs) throws = throws
  union (values xs) loops = loops
  union (values xs) (values ys) = values (xs ++ ys)

  unfoldable pub parse_field : ℕ → ℕ → List Part → Parsed
  unfolding part_values
  parse_field lo hi [] = values []
  parse_field lo hi (p ∷ ps) = union (part_values lo hi p) (parse_field lo hi ps)

-- What the code reads of a `Date`: the month counted from 1, Sunday as 0.
pub record Date : Type 0 where
  pub second : ℕ
  pub minute : ℕ
  pub hour : ℕ
  pub day : ℕ
  pub month : ℕ
  pub weekday : ℕ

-- Five fields, or six with the seconds first.
pub record CronExpression : Type 0 where
  pub fields : List (List ℕ)
  pub has_seconds : Bool

abbrev pub components : Date → Bool → List ℕ
components d true = d.second ∷ d.minute ∷ d.hour ∷ d.day ∷ d.month ∷ d.weekday ∷ []
components d false = d.minute ∷ d.hour ∷ d.day ∷ d.month ∷ d.weekday ∷ []

-- `fields[i]` holds the number.
abbrev pub field_contains : ℕ → List (List ℕ) → ℕ → Bool
field_contains i [] n = false
field_contains zero (f ∷ fs) n = contains n f
field_contains (suc i) (f ∷ fs) n = field_contains i fs n

-- The loop over the fields but the one of the day of the month.
abbrev pub others_match : ℕ → ℕ → List (List ℕ) → List ℕ → Bool
others_match skipped i [] ns = true
others_match skipped i (f ∷ fs) [] = false
others_match skipped i (f ∷ fs) (n ∷ ns) =
    (i == skipped || contains n f) && others_match skipped (i + 1) fs ns

-- Both branches of the code's test for wild fields are the same.
unfoldable pub matches : CronExpression → Date → Bool
matches e d =
    let day_index = if e.has_seconds then 3 else 2 in
    let weekday_index = if e.has_seconds then 4 else 3 in
    others_match day_index 0 e.fields (components d e.has_seconds)
    && (field_contains day_index e.fields d.day || field_contains weekday_index e.fields d.weekday)
