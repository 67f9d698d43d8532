-- ===== src/Limiter/Memory.antt =====
-- packages/limiter/src/backends/memory.ts: `MemoryRateLimitStorage`. Times and durations are whole
-- milliseconds. A token bucket holds a fraction of tokens whose denominator is the duration of its
-- rule: `scaled` is the number of tokens times that duration, so a key keeps one duration (above 0).
pub mod Sliding
pub mod Fixed
pub mod Token
pub mod Keys
pub mod History
mod Tests
use nexusts.Prelude.{
  ℕ, ◌+◌, ◌-◌, ◌*◌, ◌/◌, min, Bool, true, false, List, [], ◌∷◌, ◌++◌, Option, none, some, String,
  leb, ltb, ◌==◌, if◌then◌else◌, length, filter, replicate,
}
use nexusts.Prelude.JsMap
use nexusts.Prelude.JsMap.{JsMap}

pub data RateLimitStrategy : Type 0 where
  fixed_window sliding_window token_bucket : RateLimitStrategy

pub record FixedBucket : Type 0 where
  pub reset_at : ℕ
  pub count : ℕ

pub record TokenBucket : Type 0 where
  pub scaled : ℕ
  pub updated_at : ℕ

-- `retry_after` is `none` where the code divides by zero (a token bucket of limit 0).
pub record RateLimitResult : Type 0 where
  pub allowed : Bool
  pub remaining : ℕ
  pub limit : ℕ
  pub reset_at : ℕ
  pub retry_after : Option ℕ

pub record Storage : Type 0 where
  pub fixed : JsMap FixedBucket
  pub sliding : JsMap (List ℕ)
  pub token : JsMap TokenBucket

abbrev pub empty : Storage
empty = record { fixed = []; sliding = []; token = [] }

-- `Math.ceil(ms / 1000)`
abbrev pub seconds_up : ℕ → ℕ
seconds_up ms = (ms + 999) / 1000

-- `t > now - durationMs`
abbrev pub in_window : ℕ → ℕ → ℕ → Bool
in_window now duration t = ltb now (t + duration)

abbrev pub first_or : ℕ → List ℕ → ℕ
first_or d [] = d
first_or d (t ∷ log) = t

-- The log that the storage holds for a key, empty if none.
abbrev pub log_of : Option (List ℕ) → List ℕ
log_of none = []
log_of (some log) = log

module _ (points limit duration now : ℕ) where
  -- The bucket that the call works on: a new one if there is none or its window is over.
  unfoldable pub open_bucket : Option FixedBucket → FixedBucket
  open_bucket none = record { reset_at = now + duration; count = 0 }
  open_bucket (some b) =
      if leb b.reset_at now then record { reset_at = now + duration; count = 0 } else b

  unfoldable pub count_fixed : Option FixedBucket → FixedBucket × RateLimitResult
  unfolding open_bucket
  count_fixed stored =
      let b = open_bucket stored in
      let used = b.count + points in
      let allowed = leb used limit in
      (
        record b { count = used },
        record {
          allowed = allowed;
          remaining = limit - used;
          limit = limit;
          reset_at = b.reset_at;
          retry_after = some (if allowed then 0 else seconds_up (b.reset_at - now));
        },
      )

  -- The call on the log without the entries outside the window.
  unfoldable pub count_fresh : List ℕ → List ℕ × RateLimitResult
  count_fresh fresh =
      let allowed = leb (length fresh + points) limit in
      let log = if allowed then fresh ++ replicate points now else fresh in
      (
        log,
        record {
          allowed = allowed;
          remaining = limit - length log;
          limit = limit;
          reset_at = now + duration;
          retry_after =
              some (if allowed then 0 else seconds_up (first_or now log + duration - now));
        },
      )

  unfoldable pub count_sliding : Option (List ℕ) → List ℕ × RateLimitResult
  unfolding count_fresh
  count_sliding stored = count_fresh (filter (in_window now duration) (log_of stored))

  -- The tokens before the call takes its own.
  unfoldable pub refill : Option TokenBucket → ℕ
  refill none = limit * duration
  refill (some b) = min (limit * duration) (b.scaled + (now - b.updated_at) * limit)

  -- The call on the tokens that are there.
  unfoldable pub spend : ℕ → TokenBucket × RateLimitResult
  spend tokens =
      let allowed = leb (points * duration) tokens in
      let left = if allowed then tokens - points * duration else tokens in
      (
        record { scaled = left; updated_at = now },
        record {
          allowed = allowed;
          remaining = left / duration;
          limit = limit;
          reset_at = now + duration;
          retry_after =
              if allowed
              then some 0
              else if limit == 0
              then none
              else some ((points * duration - left + limit * 1000 - 1) / (limit * 1000));
        },
      )

  unfoldable pub count_token : Option TokenBucket → TokenBucket × RateLimitResult
  unfolding refill spend
  count_token stored = spend (refill stored)

module _ (key : String) (points limit duration now : ℕ) where
  unfoldable pub consume_fixed : Storage → Storage × RateLimitResult
  unfolding count_fixed
  consume_fixed s =
      let (b, r) = count_fixed points limit duration now (JsMap.get key s.fixed) in
      (record s { fixed = JsMap.set key b s.fixed }, r)

  unfoldable pub consume_sliding : Storage → Storage × RateLimitResult
  unfolding count_sliding
  consume_sliding s =
      let (log, r) = count_sliding points limit duration now (JsMap.get key s.sliding) in
      (record s { sliding = JsMap.set key log s.sliding }, r)

  unfoldable pub consume_token : Storage → Storage × RateLimitResult
  unfolding count_token
  consume_token s =
      let (b, r) = count_token points limit duration now (JsMap.get key s.token) in
      (record s { token = JsMap.set key b s.token }, r)

  unfoldable pub consume : RateLimitStrategy → Storage → Storage × RateLimitResult
  unfolding consume_fixed consume_sliding consume_token
  consume fixed_window s = consume_fixed s
  consume sliding_window s = consume_sliding s
  consume token_bucket s = consume_token s

unfoldable pub reset : String → Storage → Storage
reset key s = record {
  fixed = JsMap.delete key s.fixed;
  sliding = JsMap.delete key s.sliding;
  token = JsMap.delete key s.token;
}
