-- ===== src/Resilience/Retry.antt =====
-- packages/resilience/src/retry.ts: `computeBackoff` and the loop of `retry`, and the second copy of
-- the backoff in resilience.service.ts. What the loop meets (the function, the signal, the sleeps,
-- the random numbers) is given for each attempt. Delays are whole milliseconds, rounded down as
-- `setTimeout` does; `Math.random()` is the fraction `random / random_den`.
pub mod Delays
pub mod Attempts
mod Tests
use nexusts.Prelude.{
  ℕ, zero, suc, ◌+◌, ◌-◌, ◌*◌, ◌/◌, ◌^◌, min, max, Bool, true, false, not, List, [], ◌∷◌, Option,
  none, some, leb, ◌||◌, if◌then◌else◌,
}

pub data BackoffStrategy : Type 0 where
  constant linear exponential exponential_jitter : BackoffStrategy

pub record RetryConfig : Type 0 where
  pub attempts : ℕ
  pub initial_delay : ℕ
  pub max_delay : ℕ
  pub backoff : BackoffStrategy
  pub multiplier : ℕ

raw_delay : RetryConfig → BackoffStrategy → ℕ → ℕ → ℕ → ℕ
raw_delay cfg constant random random_den attempt = cfg.initial_delay
raw_delay cfg linear random random_den attempt = cfg.initial_delay * attempt
raw_delay cfg exponential random random_den attempt =
    cfg.initial_delay * cfg.multiplier ^ (attempt - 1)
raw_delay cfg exponential_jitter random random_den attempt =
    random * (cfg.initial_delay * cfg.multiplier ^ (attempt - 1)) / random_den

unfoldable pub compute_backoff : RetryConfig → ℕ → ℕ → ℕ → ℕ
unfolding raw_delay
compute_backoff cfg random random_den attempt =
    min (raw_delay cfg cfg.backoff random random_den attempt) cfg.max_delay

service_delay : RetryConfig → BackoffStrategy → ℕ → ℕ → ℕ → ℕ
service_delay cfg constant random random_den attempt = cfg.initial_delay
service_delay cfg linear random random_den attempt = cfg.initial_delay * attempt
service_delay cfg exponential random random_den attempt =
    cfg.initial_delay * cfg.multiplier ^ (attempt - 1)
service_delay cfg exponential_jitter random random_den attempt =
    random * cfg.initial_delay * cfg.multiplier ^ (attempt - 1) / random_den

-- `ResilienceService.computeBackoff`
unfoldable pub service_backoff : RetryConfig → ℕ → ℕ → ℕ → ℕ
unfolding service_delay
service_backoff cfg random random_den attempt =
    min (service_delay cfg cfg.backoff random random_den attempt) cfg.max_delay

pub data Outcome (V E : Type 0) : Type 0 where
  value : V → Outcome V E
  failure : E → Outcome V E

-- `thrown none` is the `undefined` that is thrown if the signal is aborted before the first call.
pub data Result (V E : Type 0) : Type 0 where
  returned : V → Result V E
  thrown : Option E → Result V E

-- What an attempt meets: `fn` the call's outcome, `aborted` the signal when the attempt begins,
-- `cut_short` the reason with which the sleep behind it is aborted.
pub record Env (V E : Type 0) : Type 0 where
  pub fn : ℕ → Outcome V E
  pub aborted : ℕ → Bool
  pub retry_on : E → ℕ → Bool
  pub cut_short : ℕ → Option E
  pub random : ℕ → ℕ
  pub random_den : ℕ

-- The result, the attempts at which `fn` was called, and the calls of `onRetry` as attempt and
-- delay, both oldest first.
pub record Run (V E : Type 0) : Type 0 where
  pub result : Result V E
  pub called : List ℕ
  pub retried : List (ℕ × ℕ)

module _ {V E : Type 0} (cfg : RetryConfig) (env : Env V E) where
  abbrev attempts : ℕ
  attempts = max 1 cfg.attempts

  abbrev delay_after : ℕ → ℕ
  delay_after attempt = compute_backoff cfg (env.random attempt) env.random_den attempt

  abbrev stop : ℕ → Result V E → Run V E
  stop attempt r = record { result = r; called = attempt ∷ []; retried = [] }

  abbrev hooked : ℕ → Run V E → Run V E
  hooked attempt run = record {
    result = run.result;
    called = attempt ∷ run.called;
    retried = (attempt, delay_after attempt) ∷ run.retried;
  }

  -- The `for` loop with `last` in `lastErr`; `left` bounds the attempts that are left.
  unfoldable pub retry_loop : (left attempt : ℕ) → Option E → Run V E
  retry_loop zero attempt last = record { result = thrown last; called = []; retried = [] }
  retry_loop (suc left) attempt last =
      if env.aborted attempt
      then record { result = thrown last; called = []; retried = [] }
      else elim (env.fn attempt) [
        | value v ↦ stop attempt (returned v)
        | failure e ↦
            if leb attempts attempt || not (env.retry_on e attempt)
            then stop attempt (thrown (some e))
            else elim (env.cut_short attempt) [
              | some reason ↦
                  hooked attempt
                    (record { result = thrown (some reason); called = []; retried = [] })
              | none ↦ hooked attempt (retry_loop left (attempt + 1) (some e))
            ]
      ]

  unfoldable pub retry : Run V E
  retry = retry_loop attempts 1 none
