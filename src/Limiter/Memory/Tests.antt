-- ===== src/Limiter/Memory/Tests.antt =====
-- packages/limiter/src/backends/memory.ts: runs of the storage, and its theorems at inputs.
use nexusts.Prelude.{
  ℕ, ◌≤◌, ◌≡◌, refl, true, false, List, [], ◌∷◌, none, some, String, arith, count_if,
}
use nexusts.Limiter.Memory.{
  RateLimitStrategy, fixed_window, sliding_window, Storage, empty, consume, count_token,
  count_fixed,
}
use nexusts.Limiter.Memory.Keys.{Call, perform}
use nexusts.Limiter.Memory.Sliding.{IsTracked, in_span}
use nexusts.Limiter.Memory.History
use nexusts.Limiter.Memory.History.{run}
use nexusts.Limiter.Memory.Fixed.{fixed_run}
use nexusts.Limiter.Memory.Token.{token_run, token_calls}

-- One point of two per second, at a time.
abbrev call : String → RateLimitStrategy → ℕ → Call
call key strategy at = record {
  key = key;
  strategy = strategy;
  points = 1;
  limit = 2;
  duration = 1000;
  at = at;
}

abbrev calls : List Call
calls =
    call "ip" sliding_window 100
    ∷ call "user" sliding_window 150
    ∷ call "ip" fixed_window 200
    ∷ call "ip" sliding_window 300
    ∷ call "ip" sliding_window 400
    ∷ call "ip" sliding_window 1100
    ∷ []

granted_times : (run "ip" calls empty []).1 ≡ 100 ∷ 300 ∷ 1100 ∷ []
unfolding run consume
granted_times = refl

waits : (perform (call "ip" sliding_window 400) (run "ip" calls empty []).0).1.retry_after ≡ some 1
unfolding run consume
waits = refl

third_refused :
    (fixed_run 1 2 1000 (0 ∷ 10 ∷ 20 ∷ 1000 ∷ []) none).1 ≡ true ∷ true ∷ false ∷ true ∷ []
unfolding fixed_run count_fixed
third_refused = refl

refills : (token_calls 2 1000 0 1 ((0, 1) ∷ (100, 1) ∷ (500, 1) ∷ [])).1 ≡ 3
unfolding token_run count_token
refills = refl

run_limited_example : count_if (in_span 100 1000) (run "ip" calls empty []).1 ≤ 2
run_limited_example = History.run_limited "ip" 2 1000 (omega arith) calls empty 100 refl (
  omega arith,
  λ e. (refl, refl),
  (
    omega arith,
    λ e. (refl, refl),
    (
      omega arith,
      λ e. (refl, refl),
      (
        omega arith,
        λ e. (refl, refl),
        (omega arith, λ e. (refl, refl), (omega arith, λ e. (refl, refl), tt)),
      ),
    ),
  ),
)

tracked : IsTracked 2 1000 300 (100 ∷ 300 ∷ []) (100 ∷ 300 ∷ [])
tracked = record {
  window = refl;
  past = (omega arith, (omega arith, tt));
  limited = λ a. ground arith;
}

abbrev stored : Storage
stored = record empty { sliding = ("ip", 100 ∷ 300 ∷ []) ∷ [] }
