-- ===== src/Schedule/Cron/Tests.antt =====
-- packages/schedule/src/cron-parser.ts: fields and matches, and the theorems at concrete inputs.
use nexusts.Prelude.{
  ℕ, ◌+◌, ◌*◌, ◌≤◌, ◌≡◌, ◌↔◌, refl, true, List, [], ◌∷◌, Option, none, some, String, str_eq, arith,
  if◌then◌else◌,
}
use nexusts.Schedule.Cron.{
  star, span, single, values, throws, loops, steps, loop_values, part_values, ends, resolve_value,
  parse_field, contains, Date,
}
use nexusts.Schedule.Cron.Fields.{loop_values-contains}

abbrev upper : String → String
upper t = t

abbrev to_number : String → Option ℕ
to_number t =
    if str_eq t "9"
    then some 9
    else if str_eq t "1"
    then some 1
    else if str_eq t "40"
    then some 40
    else none

-- `9,MON-FRI/2`
list_and_names :
    parse_field upper to_number 0 7 (
      record { base = single "1"; step = none }
      ∷ record { base = span "MON" "FRI"; step = some 2 }
      ∷ [])
    ≡ values (1 ∷ 1 ∷ 3 ∷ 5 ∷ [])
unfolding parse_field part_values ends resolve_value loop_values steps
list_and_names = refl

out_of_range :
    parse_field upper to_number 1 31 (record { base = single "40"; step = none } ∷ []) ≡ throws
unfolding parse_field part_values ends resolve_value loop_values steps
out_of_range = refl

-- A name is not held against the range of its field.
sunday_of_month :
    parse_field upper to_number 1 31 (record { base = single "SUN"; step = none } ∷ [])
    ≡ values (0 ∷ [])
unfolding parse_field part_values ends resolve_value loop_values steps
sunday_of_month = refl

-- `*/0` never ends.
step_zero : parse_field upper to_number 0 59 (record { base = star; step = some 0 } ∷ []) ≡ loops
unfolding parse_field part_values ends resolve_value loop_values steps
step_zero = refl

loop_values-contains_example :
    (xs : List ℕ) × (loop_values 0 59 15 ≡ values xs)
    × ((n : ℕ) → (contains n xs ≡ true) ↔ ((k : ℕ) × (n ≡ 0 + k * 15) × (n ≤ 59)))
loop_values-contains_example = loop_values-contains 0 59 15 (omega arith) (omega arith)

-- Wednesday the 14th of October, midnight.
abbrev wednesday : Date
wednesday = record { second = 0; minute = 0; hour = 0; day = 14; month = 10; weekday = 3 }
