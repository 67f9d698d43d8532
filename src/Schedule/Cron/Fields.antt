-- ===== src/Schedule/Cron/Fields.antt =====
-- packages/schedule/src/cron-parser.ts: the values of a field.
use native.Mathlib.Nat.{zero-mul, suc-mul}
use nexusts.Prelude.{
  ℕ, zero, suc, ◌+◌, ◌*◌, ◌≤◌, ◌<◌, ◌≡◌, ◌↔◌, true, List, arith, leb, ◌==◌, Bool-cases, inl, inr,
}
use nexusts.Schedule.Cron.{steps, contains, loop_values, values}

later_step : (i step n k : ℕ) → n ≡ i + step + k * step → n ≡ i + suc k * step
later_step i step n k h = omega (arith, h, suc-mul k step)

steps_sound :
    (fuel i end step n : ℕ)
    → contains n (steps fuel i end step) ≡ true
    → (k : ℕ) × (n ≡ i + k * step) × (n ≤ end)
unfolding steps
steps_sound zero i end step n h = ground arith
steps_sound (suc fuel) i end step n h = elim (Bool-cases (leb i end)) [
  | inr e ↦ ground (arith, e, h)
  | inl e ↦ elim (Bool-cases (i == n)) [
    | inl same ↦ (0, ground (arith, same, zero-mul step), ground (arith, same, e))
    | inr other ↦
        let (k, eq, le) = steps_sound fuel (i + step) end step n (ground (arith, e, other, h)) in
        (suc k, later_step i step n k eq, le)
  ]
]

steps_complete :
    (fuel i end step n k : ℕ)
    → 1 ≤ step
    → end < i + fuel
    → n ≡ i + k * step
    → n ≤ end
    → contains n (steps fuel i end step) ≡ true
unfolding steps
steps_complete zero i end step n k pos enough eq le = ground (arith, enough, eq, le)
steps_complete (suc fuel) i end step n zero pos enough eq le = ground (arith, eq, le, zero-mul step)
steps_complete (suc fuel) i end step n (suc k) pos enough eq le =
    let rest =
      steps_complete fuel (i + step) end step n k pos (omega (arith, pos, enough))
        (omega (arith, eq, suc-mul k step)) le in
    let low : i ≤ end = omega (arith, eq, le) in ground (arith, rest, low)

-- For a positive step and a range that is not empty, the loop of a field ends with the values of the
-- range that are a multiple of the step away from its start, and no others.
pub loop_values-contains :
    (start end step : ℕ)
    → 1 ≤ step
    → start ≤ end
    → (xs : List ℕ) × (loop_values start end step ≡ values xs)
      × ((n : ℕ) → (contains n xs ≡ true) ↔ ((k : ℕ) × (n ≡ start + k * step) × (n ≤ end)))
unfolding loop_values
loop_values-contains start end step pos le = (
  steps (suc end) start end step,
  ground (arith, pos, le),
  λ n. (
    steps_sound (suc end) start end step n,
    λ w. steps_complete (suc end) start end step n w.0 pos (omega arith) w.1 w.2,
  ),
)
