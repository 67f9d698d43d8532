-- ===== src/Limiter/Memory/Fixed.antt =====
-- packages/limiter/src/backends/memory.ts: the fixed window.
use nexusts.Prelude.{
  ℕ, zero, suc, ◌+◌, ◌*◌, ◌≤◌, ◌<◌, ◌≡◌, refl, ap, ap, Bool, List, [], ◌∷◌, Option, none, some, leb,
  arith, length, All,
}
use nexusts.Limiter.Memory.{FixedBucket, count_fixed}

module _ (points limit duration : ℕ) where
  -- Calls at the given times, one after another: the last bucket and which calls are allowed.
  unfoldable pub fixed_run : List ℕ → Option FixedBucket → Option FixedBucket × List Bool
  fixed_run [] b = (b, [])
  fixed_run (now ∷ times) b =
      let (b', r) = count_fixed points limit duration now b in
      let (last, flags) = fixed_run times (some b') in (last, r.allowed ∷ flags)

  -- The verdicts on the calls number `i`, `i + 1`, … of one window, `n` of them.
  abbrev pub verdicts : ℕ → ℕ → List Bool
  verdicts i zero = []
  verdicts i (suc n) = leb (i * points) limit ∷ verdicts (suc i) n

  -- A call in an open window.
  count_fixed-open :
      (now : ℕ) (b : FixedBucket)
      → now < b.reset_at
      → ((count_fixed points limit duration now (some b)).0
          ≡ record { reset_at = b.reset_at; count = b.count + points })
        × ((count_fixed points limit duration now (some b)).1.allowed
            ≡ leb (b.count + points) limit)
  unfolding count_fixed
  count_fixed-open now b h = ground arith

  fixed_run-open :
      (times : List ℕ) (reset_at count i : ℕ)
      → count ≡ i * points
      → All (λ t. t < reset_at) times
      → (fixed_run times (some (record { reset_at = reset_at; count = count }))).1
        ≡ verdicts (suc i) (length times)
  unfolding fixed_run
  fixed_run-open [] reset_at count i e h = refl
  fixed_run-open (now ∷ times) reset_at count i e (p, h) =
      let (b, a) = count_fixed-open now (record { reset_at = reset_at; count = count }) p in
      let e' : count + points ≡ suc i * points = grind arith in
      rw (a, b, e')
        (ap (◌∷◌ (leb (suc i * points) limit))
          (fixed_run-open times reset_at (suc i * points) (suc i) refl h))

  -- A window opens: no bucket is stored, or the stored one is over.
  abbrev pub Opens : ℕ → Option FixedBucket → Type 0
  Opens now none = Unit
  Opens now (some b) = b.reset_at ≤ now

  count_fixed-Opens :
      (now : ℕ) (stored : Option FixedBucket)
      → Opens now stored
      → ((count_fixed points limit duration now stored).0
          ≡ record { reset_at = now + duration; count = 1 * points })
        × ((count_fixed points limit duration now stored).1.allowed ≡ leb (1 * points) limit)
  unfolding count_fixed
  count_fixed-Opens now none h = ground arith
  count_fixed-Opens now (some b) h = ground arith

  -- If a call opens a window and the next calls come before the window ends, the i-th of all these
  -- calls is allowed exactly if i times the points is within the limit: no more than the limit is
  -- granted, and nothing is refused before.
  pub fixed_run-verdicts :
      (now : ℕ) (times : List ℕ) (stored : Option FixedBucket)
      → Opens now stored
      → All (λ t. t < now + duration) times
      → (fixed_run (now ∷ times) stored).1 ≡ verdicts 1 (suc (length times))
  unfolding fixed_run
  fixed_run-verdicts now times stored o h =
      let (b, a) = count_fixed-Opens now stored o in
      rw (a, b)
        (ap (◌∷◌ (leb (1 * points) limit))
          (fixed_run-open times (now + duration) (1 * points) 1 refl h))
