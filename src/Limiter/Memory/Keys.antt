-- ===== src/Limiter/Memory/Keys.antt =====
-- packages/limiter/src/backends/memory.ts: calls of `consume` as events, and what they leave alone.
use nexusts.Prelude.{ℕ, ◌≡◌, ◌≢◌, List, Option, none, String}
use nexusts.Prelude.JsMap
use nexusts.Prelude.JsMap.{JsMap}
use nexusts.Limiter.Memory.{
  RateLimitStrategy, fixed_window, sliding_window, token_bucket, Storage, RateLimitResult,
  FixedBucket, TokenBucket, count_fixed, count_sliding, count_token, consume, reset,
}

pub record Call : Type 0 where
  pub key : String
  pub strategy : RateLimitStrategy
  pub points : ℕ
  pub limit : ℕ
  pub duration : ℕ
  pub at : ℕ

abbrev pub perform : Call → Storage → Storage × RateLimitResult
perform c s = consume c.key c.points c.limit c.duration c.at c.strategy s

-- What a storage holds of a key.
abbrev pub view : String → Storage → Option FixedBucket × Option (List ℕ) × Option TokenBucket
view key s = (JsMap.get key s.fixed, JsMap.get key s.sliding, JsMap.get key s.token)

pub consume-view :
    (k : String) (points limit duration now : ℕ) (st : RateLimitStrategy) (s : Storage)
    (key : String)
    → k ≢ key
    → view key (consume k points limit duration now st s).0 ≡ view key s
unfolding consume
consume-view k points limit duration now fixed_window s key h = rw (
    JsMap.get-set_ne k key (count_fixed points limit duration now (JsMap.get k s.fixed)).0 s.fixed
      h)
consume-view k points limit duration now sliding_window s key h = rw (
    JsMap.get-set_ne k key (count_sliding points limit duration now (JsMap.get k s.sliding)).0
      s.sliding h)
consume-view k points limit duration now token_bucket s key h = rw (
    JsMap.get-set_ne k key (count_token points limit duration now (JsMap.get k s.token)).0 s.token
      h)

reset-view :
    (key other : String) (s : Storage)
    → (view key (reset key s) ≡ (none, none, none))
      × (key ≢ other → view other (reset key s) ≡ view other s)
unfolding reset
reset-view key other s = (
  rw (
    JsMap.get-delete_self key s.fixed,
    JsMap.get-delete_self key s.sliding,
    JsMap.get-delete_self key s.token,
  ),
  λ h. rw (
    JsMap.get-delete_ne key other s.fixed h,
    JsMap.get-delete_ne key other s.sliding h,
    JsMap.get-delete_ne key other s.token h,
  ),
)

-- A call for one key changes nothing that is held of another, whatever the strategy; `reset` of a
-- key leaves nothing of it, and all of the others.
pub perform-view :
    (c : Call) (s : Storage) (key other : String)
    → (c.key ≢ key → view key (perform c s).0 ≡ view key s)
      × (view key (reset key s) ≡ (none, none, none))
      × (key ≢ other → view other (reset key s) ≡ view other s)
perform-view c s key other = (
  consume-view c.key c.points c.limit c.duration c.at c.strategy s key,
  (reset-view key other s).0,
  (reset-view key other s).1,
)
