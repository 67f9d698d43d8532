-- ===== src/Schedule/Cron/Days.antt =====
-- packages/schedule/src/cron-parser.ts: the day of the month and the day of the week in `matches`.
use nexusts.Prelude.{
  ◌<◌, ℕ, zero, suc, ◌+◌, ◌≤◌, ◌≡◌, sym, ap, ◌∙◌, false, List, [], ◌∷◌, Option, none, String, arith,
  leb, ◌||◌, ◌&&◌, append-nil,
}
use nexusts.Schedule.Cron.{
  Part, star, steps, contains, loop_values, part_values, ends, parse_field, values, throws, loops,
  union, Parsed, Date, CronExpression, matches,
}

-- A field `*`.
abbrev pub every : List Part
every = record { base = star; step = none } ∷ []

-- The values from one number to another.
count_up-contains :
    (fuel i end n : ℕ) → end < i + fuel → contains n (steps fuel i end 1) ≡ (leb i n && leb n end)
unfolding steps
count_up-contains zero i end n enough = ground (arith, enough)
count_up-contains (suc fuel) i end n enough =
    ground (arith, count_up-contains fuel (i + 1) end n (omega arith))

abbrev pub range : ℕ → ℕ → List ℕ
range lo hi = steps (suc hi) lo hi 1

loop_values-range : (lo hi : ℕ) → lo ≤ hi → loop_values lo hi 1 ≡ values (range lo hi)
unfolding loop_values
loop_values-range lo hi le = ground (arith, le)

values_of : Parsed → List ℕ
values_of (values xs) = xs
values_of throws = []
values_of loops = []

every_values :
    (upper : String → String) (to_number : String → Option ℕ) (lo hi : ℕ)
    → lo ≤ hi
    → parse_field upper to_number lo hi every ≡ values (range lo hi)
unfolding parse_field part_values ends
every_values upper to_number lo hi le =
    ap (λ p. union upper to_number p (values [])) (loop_values-range lo hi le)
    ∙ ap values (append-nil (range lo hi))

range-contains : (lo hi n : ℕ) → contains n (range lo hi) ≡ (leb lo n && leb n hi)
range-contains lo hi n = count_up-contains (suc hi) lo hi n (omega arith)

-- An expression of five fields.
abbrev pub five : List ℕ → List ℕ → List ℕ → List ℕ → List ℕ → CronExpression
five minutes hours days months weekdays = record {
  fields = minutes ∷ hours ∷ days ∷ months ∷ weekdays ∷ [];
  has_seconds = false;
}

five-matches :
    (minutes hours days months weekdays : List ℕ) (d : Date)
    → matches (five minutes hours days months weekdays) d ≡ (
        (contains d.minute minutes
          && contains d.hour hours
          && contains d.month months
          && contains d.weekday weekdays)
        && (contains d.day days || contains d.weekday months))
unfolding matches
five-matches minutes hours days months weekdays d = ground arith

-- With `*` for the month and for the day of the week, the field of the day of the month counts on
-- Sundays only: on every other day the expression matches at its minutes and hours, whatever days
-- of the month it names.
pub matches-weekdays :
    (upper : String → String) (to_number : String → Option ℕ)
    (minutes hours days months weekdays : List ℕ) (d : Date)
    → parse_field upper to_number 1 12 every ≡ values months
    → parse_field upper to_number 0 7 every ≡ values weekdays
    → 1 ≤ d.month
    → d.month ≤ 12
    → d.weekday ≤ 6
    → matches (five minutes hours days months weekdays) d ≡ (
        contains d.minute minutes
        && contains d.hour hours
        && (contains d.day days || leb 1 d.weekday))
unfolding values_of
matches-weekdays upper to_number minutes hours days months weekdays d pm pw lo hi week =
    let m : range 1 12 ≡ months =
      ap values_of (sym (every_values upper to_number 1 12 (omega arith)) ∙ pm) in
    let w : range 0 7 ≡ weekdays =
      ap values_of (sym (every_values upper to_number 0 7 (omega arith)) ∙ pw) in
    five-matches minutes hours days months weekdays d
    ∙ rw⁻¹ (m, w)
        (rw
          (range-contains 1 12 d.month, range-contains 0 7 d.weekday, range-contains 1 12 d.weekday)
          (ground (arith, lo, hi, week)))
