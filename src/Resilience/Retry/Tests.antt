-- ===== src/Resilience/Retry/Tests.antt =====
-- packages/resilience/src/retry.ts: runs of `retry`, and its theorems at inputs.
use nexusts.Prelude.{ℕ, zero, suc, ◌<◌, ◌≡◌, refl, ◌↔◌, true, false, [], ◌∷◌, none, arith}
use nexusts.Resilience.Retry.{
  exponential, RetryConfig, Outcome, value, failure, returned, Env, attempts, compute_backoff,
  retry_loop, retry,
}
use nexusts.Resilience.Retry.Attempts
use nexusts.Resilience.Retry.Attempts.{Survives, SucceedsAfter, GivesUpAfter, IsBounded, range_from}

abbrev config : RetryConfig
config = record {
  attempts = 3;
  initial_delay = 100;
  max_delay = 30000;
  backoff = exponential;
  multiplier = 2;
}

-- Fails with the number of the attempt, until the third.
abbrev flaky : ℕ → Outcome ℕ ℕ
flaky zero = failure 0
flaky (suc zero) = failure 1
flaky (suc (suc zero)) = failure 2
flaky n = value 42

abbrev env : Env ℕ ℕ
env = record {
  fn = flaky;
  aborted = λ i. false;
  retry_on = λ e i. true;
  cut_short = λ i. none;
  random = λ i. 1;
  random_den = 2;
}

abbrev broken : Env ℕ ℕ
broken = record env { fn = λ i. failure i }

third_time :
    retry config env
    ≡ record { result = returned 42; called = 1 ∷ 2 ∷ 3 ∷ []; retried = (1, 100) ∷ (2, 200) ∷ [] }
unfolding retry retry_loop compute_backoff
third_time = refl

abbrev survives : (i : ℕ) (e : ℕ) → flaky i ≡ failure e → Survives config env i
survives i e h = record {
  error = e;
  not_aborted = refl;
  failed = h;
  retryable = refl;
  slept = refl;
}

abbrev survives_broken : (i : ℕ) → Survives config broken i
survives_broken i = record {
  error = i;
  not_aborted = refl;
  failed = refl;
  retryable = refl;
  slept = refl;
}

retry_iff_example :
    ((retry config env).result ≡ returned 42)
    ↔ ((n : ℕ) × (n < attempts config env) × SucceedsAfter config env n 1 42)
retry_iff_example = Attempts.retry_iff config env 42

retry_iff_witness : (n : ℕ) × (n < attempts config env) × SucceedsAfter config env n 1 42
retry_iff_witness = (2, omega arith, (survives 1 1 refl, (survives 2 2 refl, (refl, refl))))
