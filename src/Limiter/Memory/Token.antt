-- ===== src/Limiter/Memory/Token.antt =====
-- packages/limiter/src/backends/memory.ts: the token bucket.
use native.Mathlib.Nat.{sub-add_cancel, mul-le-mul_left, mul-sub}
use nexusts.Prelude.{
  ℕ, ◌+◌, ◌-◌, ◌*◌, ◌≤◌, ◌≡◌, refl, List, [], ◌∷◌, Option, none, some, leb, arith, if◌then◌else◌,
  Bool-cases, inl, inr, leb→le,
}
use nexusts.Limiter.Memory.{TokenBucket, refill, spend, count_token}

module _ (limit duration : ℕ) where
  -- Calls as pairs of time and points: the last bucket and the points granted in all.
  unfoldable pub token_run : List (ℕ × ℕ) → TokenBucket → ℕ → TokenBucket × ℕ
  token_run [] b total = (b, total)
  token_run ((now, points) ∷ calls) b total =
      let (b', r) = count_token points limit duration now (some b) in
      token_run calls b' (if r.allowed then total + points else total)

  -- The clock does not go back.
  abbrev pub IsClocked : ℕ → List (ℕ × ℕ) → Type 0
  IsClocked now [] = Unit
  IsClocked now ((at, points) ∷ calls) = (now ≤ at) × IsClocked at calls

  -- What was granted since `start` and what is left came from the first filling and the refill.
  pub record IsFunded (start total : ℕ) (b : TokenBucket) : Type 0 where
    pub paid : b.scaled + duration * total + limit * start ≤ limit * duration + limit * b.updated_at
    pub capped : b.scaled ≤ limit * duration
    pub started : start ≤ b.updated_at

  -- The refill adds at most the limit for each elapsed duration.
  refill-le :
      (points now : ℕ) (b : TokenBucket)
      → b.updated_at ≤ now
      → (refill points limit duration now (some b) + limit * b.updated_at ≤ b.scaled + limit * now)
        × (refill points limit duration now (some b) ≤ limit * duration)
  unfolding refill
  refill-le points now b le =
      let split : (now - b.updated_at) * limit + limit * b.updated_at ≡ limit * now =
        grind (arith, sub-add_cancel le) in
      (omega (arith, split), omega arith)

  spend-IsFunded :
      (points now start total tokens : ℕ)
      → tokens + duration * total + limit * start ≤ limit * duration + limit * now
      → tokens ≤ limit * duration
      → start ≤ now
      → IsFunded start
          (if (spend points limit duration now tokens).1.allowed then total + points else total)
          (spend points limit duration now tokens).0
  unfolding spend
  spend-IsFunded points now start total tokens paid capped started =
      elim (Bool-cases (leb (points * duration) tokens)) [
        | inl enough ↦
            let le : points * duration ≤ tokens = leb→le _ _ enough in
            rw enough (record { paid = omega arith; capped = omega arith; started = started })
        | inr short ↦ rw short (record { paid = paid; capped = capped; started = started })
      ]

  -- One call keeps the account.
  count_token-IsFunded :
      (points now start total : ℕ) (b : TokenBucket)
      → b.updated_at ≤ now
      → IsFunded start total b
      → IsFunded start
          (if (count_token points limit duration now (some b)).1.allowed
            then total + points
            else total)
          (count_token points limit duration now (some b)).0
  unfolding count_token
  count_token-IsFunded points now start total b le f =
      let (spent, full) = refill-le points now b le in
      spend-IsFunded points now start total (refill points limit duration now (some b))
        (omega arith) full (omega arith)

  count_token-updated_at :
      (points now : ℕ) (stored : Option TokenBucket)
      → (count_token points limit duration now stored).0.updated_at ≡ now
  unfolding count_token
  count_token-updated_at points now stored = refl

  first-IsFunded :
      (points start : ℕ)
      → IsFunded start
          (if (count_token points limit duration start none).1.allowed then 0 + points else 0)
          (count_token points limit duration start none).0
  unfolding count_token
  first-IsFunded points start =
      spend-IsFunded points start start 0 (limit * duration) (omega arith) (omega arith)
        (omega arith)

  token_run-IsFunded :
      (calls : List (ℕ × ℕ)) (start total : ℕ) (b : TokenBucket)
      → IsClocked b.updated_at calls
      → IsFunded start total b
      → IsFunded start (token_run calls b total).1 (token_run calls b total).0
  unfolding token_run
  token_run-IsFunded [] start total b g f = f
  token_run-IsFunded ((now, points) ∷ calls) start total b (le, g) f =
      token_run-IsFunded calls start _ (count_token points limit duration now (some b)).0
        (rw (count_token-updated_at points now (some b)) g)
        (count_token-IsFunded points now start total b le f)

  -- The first call on a key, at time `start`, and then more calls.
  abbrev pub token_calls : ℕ → ℕ → List (ℕ × ℕ) → TokenBucket × ℕ
  token_calls start points calls =
      let (b, r) = count_token points limit duration start none in
      token_run calls b (if r.allowed then 0 + points else 0)

  -- If the clock does not go back, the points granted since a key's first call, times the duration,
  -- are within the limit times the duration, for the first filling, and the limit times the time
  -- that has passed up to the last call; and the bucket never holds more than the limit.
  pub token_calls_limited :
      (start points : ℕ) (calls : List (ℕ × ℕ))
      → IsClocked start calls
      → (duration * (token_calls start points calls).1
          ≤ limit * duration + limit * ((token_calls start points calls).0.updated_at - start))
        × ((token_calls start points calls).0.scaled ≤ limit * duration)
  token_calls_limited start points calls g =
      let f =
        token_run-IsFunded calls start
          (if (count_token points limit duration start none).1.allowed then 0 + points else 0)
          (count_token points limit duration start none).0
          (rw (count_token-updated_at points start none) g) (first-IsFunded points start) in
      let split = mul-sub limit (token_calls start points calls).0.updated_at start in
      (omega (arith, split, mul-le-mul_left limit f.started), f.capped)
