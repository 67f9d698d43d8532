-- ===== src/Resilience/Retry/Delays.antt =====
-- packages/resilience/src/retry.ts and resilience.service.ts: the delays between attempts.
use native.Mathlib.Nat.{
  mul-le-mul_left, pow-le-pow_right, div-le_of_le-mul, mul-le-mul_right, le_refl, mul_assoc,
}
use nexusts.Prelude.{ℕ, ◌-◌, ◌*◌, ◌/◌, ◌^◌, ◌≤◌, ◌<◌, ◌≡◌, refl, ap, ◌≢◌, min, arith}
use nexusts.Resilience.Retry.{
  BackoffStrategy, constant, linear, exponential, exponential_jitter, RetryConfig, raw_delay,
  compute_backoff, service_delay, service_backoff,
}

-- A delay never exceeds `maxDelay`, and a random one never exceeds the exponential one.
pub compute_backoff_bounds :
    (cfg : RetryConfig) (random random_den attempt : ℕ)
    → random < random_den
    → (compute_backoff cfg random random_den attempt ≤ cfg.max_delay)
      × (compute_backoff (record cfg { backoff = exponential_jitter }) random random_den attempt
          ≤ compute_backoff (record cfg { backoff = exponential }) random random_den attempt)
unfolding compute_backoff
compute_backoff_bounds cfg random random_den attempt h =
    let base = cfg.initial_delay * cfg.multiplier ^ (attempt - 1) in
    let less : random * base / random_den ≤ base =
      div-le_of_le-mul random_den (mul-le-mul_right base (omega arith)) in
    (omega arith, omega (arith, less))

raw_delay_mono :
    (cfg : RetryConfig) (b : BackoffStrategy) (r r' d i j : ℕ)
    → b ≢ exponential_jitter
    → 0 < cfg.multiplier
    → i ≤ j
    → raw_delay cfg b r d i ≤ raw_delay cfg b r' d j
unfolding raw_delay
raw_delay_mono cfg constant r r' d i j n p h = le_refl _
raw_delay_mono cfg linear r r' d i j n p h = mul-le-mul_left cfg.initial_delay h
raw_delay_mono cfg exponential r r' d i j n p h =
    mul-le-mul_left cfg.initial_delay (pow-le-pow_right p (omega arith))
raw_delay_mono cfg exponential_jitter r r' d i j n p h = absurd (n refl)

-- Without jitter and with a positive multiplier, a later attempt never waits less.
compute_backoff_mono :
    (cfg : RetryConfig) (r r' d i j : ℕ)
    → cfg.backoff ≢ exponential_jitter
    → 0 < cfg.multiplier
    → i ≤ j
    → compute_backoff cfg r d i ≤ compute_backoff cfg r' d j
unfolding compute_backoff
compute_backoff_mono cfg r r' d i j n p h =
    omega (arith, raw_delay_mono cfg cfg.backoff r r' d i j n p h)

service_delay-raw_delay :
    (cfg : RetryConfig) (b : BackoffStrategy) (r d i : ℕ)
    → service_delay cfg b r d i ≡ raw_delay cfg b r d i
unfolding service_delay raw_delay
service_delay-raw_delay cfg constant r d i = refl
service_delay-raw_delay cfg linear r d i = refl
service_delay-raw_delay cfg exponential r d i = refl
service_delay-raw_delay cfg exponential_jitter r d i = rw mul_assoc

-- The copy of the algorithm in the service agrees with the original, for every strategy.
pub service_backoff-compute_backoff :
    (cfg : RetryConfig) (r d i : ℕ) → service_backoff cfg r d i ≡ compute_backoff cfg r d i
unfolding service_backoff compute_backoff
service_backoff-compute_backoff cfg r d i =
    ap (λ t. min t cfg.max_delay) (service_delay-raw_delay cfg cfg.backoff r d i)
