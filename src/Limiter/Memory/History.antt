-- ===== src/Limiter/Memory/History.antt =====
-- packages/limiter/src/backends/memory.ts: the points granted to one key under the sliding window,
-- over any sequence of calls for any keys and strategies.
use nexusts.Prelude.{
  ℕ, ◌+◌, ◌≤◌, ◌<◌, ◌≡◌, refl, ap, ◌↔◌, Bool, true, false, ◌&&◌, List, [], ◌∷◌, ◌++◌, none, some,
  String, str_eq, eq_iff, arith, if◌then◌else◌, Bool-cases, inl, inr, length, filter, count_if,
}
use nexusts.Prelude.JsMap
use nexusts.Limiter.Memory.{
  RateLimitStrategy, fixed_window, sliding_window, token_bucket, Storage, in_window, log_of,
  count_sliding, consume,
}
use nexusts.Limiter.Memory.Keys.{Call, perform, consume-view}
use nexusts.Limiter.Memory.Sliding.{
  in_span, granted, IsTracked, IsTracked-window, count_sliding-IsTracked,
}

abbrev pub is_sliding : RateLimitStrategy → Bool
is_sliding sliding_window = true
is_sliding fixed_window = false
is_sliding token_bucket = false

abbrev pub is_mine : String → Call → Bool
is_mine key c = str_eq c.key key && is_sliding c.strategy

-- The calls in turn; the list grows by the time of each point that is granted to the key.
unfoldable pub run : String → List Call → Storage → List ℕ → Storage × List ℕ
run key [] s h = (s, h)
run key (c ∷ cs) s h =
    let (s', r) = perform c s in
    run key cs s' (if is_mine key c then h ++ granted c.points c.at r else h)

-- The clock does not go back, and the key has one limit and one duration.
abbrev pub IsGoverned : String → ℕ → ℕ → ℕ → List Call → Type 0
IsGoverned key limit duration now [] = Unit
IsGoverned key limit duration now (c ∷ cs) =
    (now ≤ c.at)
    × (is_mine key c ≡ true → (c.limit ≡ limit) × (c.duration ≡ duration))
    × IsGoverned key limit duration c.at cs

consume-sliding_window :
    (key : String) (points limit duration now : ℕ) (st : RateLimitStrategy) (s : Storage)
    → is_sliding st ≡ true
    → (JsMap.get key (consume key points limit duration now st s).0.sliding
        ≡ some (count_sliding points limit duration now (JsMap.get key s.sliding)).0)
      × ((consume key points limit duration now st s).1
          ≡ (count_sliding points limit duration now (JsMap.get key s.sliding)).1)
unfolding consume
consume-sliding_window key points limit duration now sliding_window s h =
    (JsMap.get-set_self key _ s.sliding, refl)
consume-sliding_window key points limit duration now fixed_window s h = cc
consume-sliding_window key points limit duration now token_bucket s h = cc

consume-other_strategy :
    (key : String) (points limit duration now : ℕ) (st : RateLimitStrategy) (s : Storage)
    → is_sliding st ≡ false
    → (consume key points limit duration now st s).0.sliding ≡ s.sliding
unfolding consume
consume-other_strategy key points limit duration now sliding_window s h = cc
consume-other_strategy key points limit duration now fixed_window s h = refl
consume-other_strategy key points limit duration now token_bucket s h = refl

-- A call that is not for the key's sliding window leaves its log.
perform-not_mine :
    (key : String) (c : Call) (s : Storage)
    → is_mine key c ≡ false
    → JsMap.get key (perform c s).0.sliding ≡ JsMap.get key s.sliding
perform-not_mine key c s h = elim (Bool-cases (str_eq c.key key)) [
  | inl same ↦
      rw (consume-other_strategy c.key c.points c.limit c.duration c.at c.strategy s (ground arith))
  | inr other ↦
      ap (λ v. v.1)
        (consume-view c.key c.points c.limit c.duration c.at c.strategy s key
          (ground (arith, eq_iff c.key key)))
]

module _ (key : String) (limit duration : ℕ) (pos : 0 < duration) where
  consume-IsTracked :
      (k : String) (points l d at : ℕ) (st : RateLimitStrategy) (s : Storage) (now : ℕ) (h : List ℕ)
      → k ≡ key
      → l ≡ limit
      → d ≡ duration
      → is_sliding st ≡ true
      → now ≤ at
      → IsTracked limit duration now (log_of (JsMap.get key s.sliding)) h
      → IsTracked limit duration at
          (log_of (JsMap.get key (consume k points l d at st s).0.sliding))
          (h ++ granted points at (consume k points l d at st s).1)
  consume-IsTracked k points l d at st s now h ek el ed es le t =
      let (log, r) = consume-sliding_window key points limit duration at st s es in
      rw (ek, el, ed, log, r)
        (count_sliding-IsTracked limit duration pos points now at (JsMap.get key s.sliding) h le t)

  -- One call keeps the log in step with the history.
  perform-IsTracked :
      (c : Call) (s : Storage) (now : ℕ) (h : List ℕ)
      → now ≤ c.at
      → (is_mine key c ≡ true → (c.limit ≡ limit) × (c.duration ≡ duration))
      → IsTracked limit duration now (log_of (JsMap.get key s.sliding)) h
      → (later : ℕ) × (later ≤ c.at)
        × IsTracked limit duration later
            (log_of (JsMap.get key (perform c s).0.sliding))
            (if is_mine key c then h ++ granted c.points c.at (perform c s).1 else h)
  perform-IsTracked c s now h le same t = elim (Bool-cases (is_mine key c)) [
    | inl mine ↦ (
      c.at,
      omega arith,
      rw mine (
          consume-IsTracked c.key c.points c.limit c.duration c.at c.strategy s now h
            (ground (arith, eq_iff c.key key)) (same mine).0 (same mine).1 (ground arith) le t),
    )
    | inr other ↦ (now, le, rw (other, perform-not_mine key c s other) t)
  ]

  run-IsTracked :
      (cs : List Call) (s : Storage) (now clock : ℕ) (h : List ℕ)
      → now ≤ clock
      → IsGoverned key limit duration clock cs
      → IsTracked limit duration now (log_of (JsMap.get key s.sliding)) h
      → (later : ℕ) × IsTracked limit duration later
          (log_of (JsMap.get key (run key cs s h).0.sliding))
          (run key cs s h).1
  unfolding run
  run-IsTracked [] s now clock h le g t = (now, t)
  run-IsTracked (c ∷ cs) s now clock h le (p, same, g) t =
      let (later, q, t') = perform-IsTracked c s now h (omega arith) same t in
      run-IsTracked cs (perform c s).0 later c.at _ q g t'

  -- From a storage without a log of the key, whatever calls come: if the clock does not go back and
  -- the key keeps one limit and one (positive) duration, then no span of time of that duration,
  -- wherever it begins, holds more granted points than the limit.
  pub run_limited :
      (cs : List Call) (s : Storage) (a : ℕ)
      → JsMap.get key s.sliding ≡ none
      → IsGoverned key limit duration 0 cs
      → count_if (in_span a duration) (run key cs s []).1 ≤ limit
  run_limited cs s a fresh g =
      (run-IsTracked cs s 0 0 [] (omega arith) g
          (rw fresh (record { window = refl; past = tt; limited = λ b. omega arith }))).1.limited
        a

  -- Where the log follows the history, a call for the key's sliding window is allowed exactly if
  -- the points granted in its trailing window leave room for its own.
  pub consume-allowed_iff :
      (points now at : ℕ) (s : Storage) (h : List ℕ)
      → now ≤ at
      → IsTracked limit duration now (log_of (JsMap.get key s.sliding)) h
      → ((consume key points limit duration at sliding_window s).1.allowed ≡ true)
        ↔ (length (filter (in_window at duration) h) + points ≤ limit)
  unfolding consume
  consume-allowed_iff points now at s h le t =
      rw (IsTracked-window limit duration now at _ h le t) (ground arith)
