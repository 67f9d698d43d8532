-- ===== src/Resilience/Retry/Attempts.antt =====
-- packages/resilience/src/retry.ts: which attempts `retry` makes, and what it returns.
use native.Mathlib.Numerals.{add-one}
use nexusts.Prelude.{
  ℕ, zero, suc, ◌+◌, ◌-◌, ◌≤◌, ◌<◌, ◌≡◌, refl, ◌↔◌, ◌⊎◌, inl, inr, true, false, List, [], ◌∷◌,
  Option, none, some, length, arith, lt→leb, ap, ◌∙◌, All,
}
use nexusts.Resilience.Retry.{
  RetryConfig, Outcome, value, failure, returned, thrown, Env, Run, attempts, delay_after,
  retry_loop, retry, stop, hooked, compute_backoff,
}

-- The numbers from `i` on, `n` of them.
abbrev pub range_from : ℕ → ℕ → List ℕ
range_from i zero = []
range_from i (suc n) = i ∷ range_from (suc i) n

Outcome-cases :
    {V E : Type 0} (o : Outcome V E) → ((v : V) × (o ≡ value v)) ⊎ ((e : E) × (o ≡ failure e))
Outcome-cases (value v) = inl (v, refl)
Outcome-cases (failure e) = inr (e, refl)

module _ {V E : Type 0} (cfg : RetryConfig) (env : Env V E) where
  -- The attempt fails in a way that is retried, and nothing aborts it or the sleep behind it.
  pub record Survives (i : ℕ) : Type 0 where
    pub error : E
    pub not_aborted : env.aborted i ≡ false
    pub failed : env.fn i ≡ failure error
    pub retryable : env.retry_on error i ≡ true
    pub slept : env.cut_short i ≡ none

  -- `n` attempts from `i` on survive, and the next returns `v`.
  abbrev pub SucceedsAfter : ℕ → ℕ → V → Type 0
  SucceedsAfter zero i v = (env.aborted i ≡ false) × (env.fn i ≡ value v)
  SucceedsAfter (suc n) i v = Survives i × SucceedsAfter n (suc i) v

  -- One round of the loop, by what its attempt meets.
  loop-value :
      (left i : ℕ) (last : Option E) (v : V)
      → env.aborted i ≡ false
      → env.fn i ≡ value v
      → retry_loop cfg env (suc left) i last ≡ stop cfg env i (returned v)
  unfolding retry_loop
  loop-value left i last v na e = ground arith

  loop-survives :
      (left i : ℕ) (last : Option E) (s : Survives i)
      → i < attempts cfg env
      → retry_loop cfg env (suc left) i last
        ≡ hooked cfg env i (retry_loop cfg env left (suc i) (some s.error))
  unfolding retry_loop
  loop-survives left i last s h =
      rw (s.not_aborted, s.failed, s.retryable, lt→leb (attempts cfg env) i h, s.slept, add-one)

  loop_complete :
      (n left i : ℕ) (v : V) (last : Option E)
      → attempts cfg env + 1 ≡ i + left
      → n < left
      → SucceedsAfter n i v
      → (retry_loop cfg env left i last).result ≡ returned v
  loop_complete zero zero i v last e h s = absurd (omega arith)
  loop_complete zero (suc left) i v last e h s =
      ap (λ r. r.result) (loop-value left i last v s.0 s.1)
  loop_complete (suc n) zero i v last e h s = absurd (omega arith)
  loop_complete (suc n) (suc left) i v last e h s =
      ap (λ r. r.result) (loop-survives left i last s.0 (omega arith))
      ∙ loop_complete n left (suc i) v (some s.0.error) (omega arith) (omega arith) s.1

  -- What a round that ends in `returned v` met.
  loop-cases :
      (left i : ℕ) (last : Option E) (v : V)
      → (retry_loop cfg env (suc left) i last).result ≡ returned v
      → ((env.aborted i ≡ false) × (env.fn i ≡ value v))
        ⊎ (Survives i
            × (i < attempts cfg env)
            × ((e : E) × ((retry_loop cfg env left (suc i) (some e)).result ≡ returned v)))
  unfolding retry_loop
  loop-cases left i last v h = elim (Outcome-cases (env.fn i)) [
    | inl (w, f) ↦ ground arith
    | inr (e, f) ↦
        let go : (env.aborted i ≡ false)
            × (i < attempts cfg env)
            × (env.retry_on e i ≡ true)
            × (env.cut_short i ≡ none)
            × ((retry_loop cfg env left (suc i) (some e)).result ≡ returned v) =
          ground (arith, add-one i) in
        inr (
          record { error = e; not_aborted = go.0; failed = f; retryable = go.2; slept = go.3 },
          go.1,
          (e, go.4),
        )
  ]

  loop_sound :
      (left i : ℕ) (v : V) (last : Option E)
      → attempts cfg env + 1 ≡ i + left
      → (retry_loop cfg env left i last).result ≡ returned v
      → (n : ℕ) × (n < left) × SucceedsAfter n i v
  loop_sound zero i v last e h = unfold retry_loop in cc
  loop_sound (suc left) i v last e h = elim (loop-cases left i last v h) [
    | inl s ↦ (0, omega arith, s)
    | inr (s, less, (x, h')) ↦
        let (n, below, later) = loop_sound left (suc i) v (some x) (omega arith) h' in
        (suc n, omega arith, (s, later))
  ]

  -- `retry` returns a value exactly if some attempt within the limit returns it, and every attempt
  -- before that one failed, was to be retried, and was not aborted, nor was the sleep behind it.
  pub retry_iff :
      (v : V)
      → ((retry cfg env).result ≡ returned v)
        ↔ ((n : ℕ) × (n < attempts cfg env) × SucceedsAfter n 1 v)
  unfolding retry
  retry_iff v = (
    λ h. loop_sound (attempts cfg env) 1 v none (omega arith) h,
    λ (n, below, s). loop_complete n (attempts cfg env) 1 v none (omega arith) below s,
  )

  delay_after-le : (i : ℕ) → delay_after cfg env i ≤ cfg.max_delay
  unfolding compute_backoff
  delay_after-le i = omega arith

  -- The calls made from attempt `i` on are consecutive, at most as many as are left; the hook runs
  -- after some of them, never after the last that is allowed.
  pub record IsBounded (left i : ℕ) (run : Run V E) : Type 0 where
    pub consecutive : run.called ≡ range_from i (length run.called)
    pub limited : length run.called ≤ left
    pub hooked_calls : length run.retried ≤ length run.called
    pub hooked_limit : length run.retried ≤ left - 1
    pub delays : All (λ p. p.1 ≤ cfg.max_delay) run.retried

  loop-IsBounded :
      (left i : ℕ) (last : Option E)
      → attempts cfg env + 1 ≡ i + left
      → IsBounded left i (retry_loop cfg env left i last)
  unfolding retry_loop
  loop-IsBounded zero i last h = record {
    consecutive = refl;
    limited = omega arith;
    hooked_calls = omega arith;
    hooked_limit = omega arith;
    delays = tt;
  }
  loop-IsBounded (suc left) i last h = elim (Outcome-cases (env.fn i)) [
    | inl (w, f) ↦ ground arith
    | inr (e, f) ↦ ground (arith, add-one i, delay_after-le i, loop-IsBounded left (suc i) (some e))
  ]

  -- `retry` calls the function at the attempts 1, 2, … without a gap, at most `max(1, attempts)`
  -- times; it announces at most one retry for each call, none behind the last allowed attempt, and
  -- no delay above `maxDelay`.
  pub retry-IsBounded : IsBounded (attempts cfg env) 1 (retry cfg env)
  unfolding retry
  retry-IsBounded = loop-IsBounded (attempts cfg env) 1 none (omega arith)

  -- `n` attempts from `i` on survive, and the next fails for good with `e`: it is the last that is
  -- allowed, or its error is not to be retried.
  abbrev pub GivesUpAfter : ℕ → ℕ → E → Type 0
  GivesUpAfter zero i e =
      (env.aborted i ≡ false)
      × (env.fn i ≡ failure e)
      × ((attempts cfg env ≤ i) ⊎ (env.retry_on e i ≡ false))
  GivesUpAfter (suc n) i e = Survives i × GivesUpAfter n (suc i) e

  loop-gives_up :
      (n left i : ℕ) (e : E) (last : Option E)
      → attempts cfg env + 1 ≡ i + left
      → n < left
      → GivesUpAfter n i e
      → ((retry_loop cfg env left i last).result ≡ thrown (some e))
        × ((retry_loop cfg env left i last).called ≡ range_from i (suc n))
  unfolding retry_loop
  loop-gives_up zero zero i e last h less g = absurd (omega arith)
  loop-gives_up zero (suc left) i e last h less (na, f, g) = ground arith
  loop-gives_up (suc n) zero i e last h less g = absurd (omega arith)
  loop-gives_up (suc n) (suc left) i e last h less (s, g) =
      let (r, c) = loop-gives_up n left (suc i) e (some s.error) (omega arith) (omega arith) g in
      rw (loop-survives left i last s (omega arith)) (r, ap (◌∷◌ i) c)

  -- If some attempts survive and the next fails for good, that attempt's error is thrown, and
  -- exactly the attempts up to it were made.
  pub retry-gives_up :
      (n : ℕ) (e : E)
      → n < attempts cfg env
      → GivesUpAfter n 1 e
      → ((retry cfg env).result ≡ thrown (some e)) × ((retry cfg env).called ≡ range_from 1 (suc n))
  unfolding retry
  retry-gives_up n e less g = loop-gives_up n (attempts cfg env) 1 e none (omega arith) less g
