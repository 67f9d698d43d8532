-- ===== src/Limiter/Service/Shared.antt =====
-- packages/limiter/src/limiter.middleware.ts: rules that derive the same key.
use nexusts.Prelude.{
  ℕ, ◌+◌, ◌≤◌, ◌≡◌, refl, ap, ◌∙◌, Bool, true, false, List, [], ◌∷◌, ◌++◌, Option, some, String,
  arith, leb, if◌then◌else◌, filter, length, length-append, filter-append, All, Bool-cases, inl,
  inr, get_or_else,
}
use nexusts.Prelude.JsMap
use nexusts.Limiter.Memory.{
  sliding_window, RateLimitResult, Storage, consume, consume_sliding, count_sliding, count_fresh,
  in_window, log_of,
}
use nexusts.Limiter.Service.{
  RateLimitRule, duration_to_ms, Verdict, passed, rejected, is_passed, key_of, check, Request,
  applies, after_check, handle,
}

-- The points of the key that count at the time.
abbrev pub counted : String → ℕ → ℕ → Storage → ℕ
counted key duration now s =
    length (filter (in_window now duration) (log_of (JsMap.get key s.sliding)))

filter_twice :
    (now duration : ℕ) (l : List ℕ)
    → filter (in_window now duration) (filter (in_window now duration) l)
      ≡ filter (in_window now duration) l
filter_twice now duration [] = refl
filter_twice now duration (t ∷ l) = ground (arith, filter_twice now duration l)

counted_after :
    (now duration : ℕ) (b : Bool) (l : List ℕ)
    → 1 ≤ duration
    → length (
        filter (in_window now duration) (
          if b
          then filter (in_window now duration) l ++ now ∷ []
          else filter (in_window now duration) l))
      ≡ (if b
          then length (filter (in_window now duration) l) + 1
          else length (filter (in_window now duration) l))
counted_after now duration true l pos =
    let fresh = filter (in_window now duration) l in
    ap length (
      filter-append (in_window now duration) fresh (now ∷ [])
      ∙ ap (λ m. m ++ filter (in_window now duration) (now ∷ [])) (filter_twice now duration l))
    ∙ length-append fresh (filter (in_window now duration) (now ∷ []))
    ∙ ground (arith, pos)
counted_after now duration false l pos = ap length (filter_twice now duration l)

-- One check under the sliding window: it is allowed if there is room for one more point, which it
-- then takes.
consume-counted :
    (key : String) (limit duration now : ℕ) (s : Storage)
    → 1 ≤ duration
    → let checked = consume key 1 limit duration now sliding_window s in
      (checked.1.allowed ≡ leb (counted key duration now s + 1) limit)
      × (counted key duration now checked.0 ≡ (
          if leb (counted key duration now s + 1) limit
          then counted key duration now s + 1
          else counted key duration now s))
unfolding consume consume_sliding count_sliding count_fresh
consume-counted key limit duration now s pos = (
  refl,
  rw
      (JsMap.get-set_self key (count_sliding 1 limit duration now (JsMap.get key s.sliding)).0
        s.sliding)
      (counted_after now duration (leb (counted key duration now s + 1) limit)
        (log_of (JsMap.get key s.sliding)) pos),
)

module _ {R : Type 0} (upper : String → String) (glob : String → String → Bool)
    (default_key : R → Option String) (now : ℕ) (c : Request R) (key : String)
    (limit duration : ℕ) where
  -- The rule applies to the request, under the sliding window, with this key, limit and duration.
  pub record SharesKey (rule : RateLimitRule R) : Type 0 where
    pub applied : applies upper glob default_key now c rule ≡ true
    pub derived : key_of default_key rule c.context ≡ key
    pub lasting : duration_to_ms rule.duration ≡ some duration
    pub limited : rule.points ≡ limit
    pub sliding : get_or_else rule.strategy sliding_window ≡ sliding_window

  check-consume :
      (rule : RateLimitRule R) (s : Storage)
      → SharesKey rule
      → check now (key_of default_key rule c.context) rule s
        ≡ some (consume key 1 limit duration now sliding_window s)
  unfolding check
  check-consume rule s h = rw (h.lasting, check) (rw (h.derived, h.limited, h.sliding) refl)

  handle-step :
      (rule : RateLimitRule R) (rules : List (RateLimitRule R)) (s : Storage)
      → SharesKey rule
      → handle upper glob default_key now c (rule ∷ rules) s
        ≡ after_check upper glob default_key now c
            (handle upper glob default_key now c rules)
            s
            (some (consume key 1 limit duration now sliding_window s))
  unfolding handle
  handle-step rule rules s h =
      rw (h.applied, handle)
        (ap (after_check upper glob default_key now c (handle upper glob default_key now c rules) s)
          (check-consume rule s h))

  handle-nil : (s : Storage) → handle upper glob default_key now c [] s ≡ (s, passed)
  unfolding handle
  handle-nil s = refl

  after-allowed :
      (rest : Storage → Storage × Verdict) (s : Storage) (checked : Storage × RateLimitResult)
      → checked.1.allowed ≡ true
      → after_check upper glob default_key now c rest s (some checked) ≡ rest checked.0
  unfolding after_check
  after-allowed rest s checked e = rw (e, after_check) refl

  after-refused :
      (rest : Storage → Storage × Verdict) (s : Storage) (checked : Storage × RateLimitResult)
      → checked.1.allowed ≡ false
      → after_check upper glob default_key now c rest s (some checked)
        ≡ (checked.0, rejected checked.1)
  unfolding after_check
  after-refused rest s checked e = rw (e, after_check) refl

  -- A request that several rules with one key apply to takes a point for each of them: it passes
  -- exactly if there is room for as many points as there are rules, and has then taken them.
  pub handle-counted :
      (rules : List (RateLimitRule R)) (s : Storage)
      → 1 ≤ duration
      → counted key duration now s ≤ limit
      → All SharesKey rules
      → (is_passed (handle upper glob default_key now c rules s).1
          ≡ leb (counted key duration now s + length rules) limit)
        × (counted key duration now (handle upper glob default_key now c rules s).0 ≡ (
            if leb (counted key duration now s + length rules) limit
            then counted key duration now s + length rules
            else limit))
  handle-counted [] s pos room h = rw (handle-nil s) (ground (arith, room))
  handle-counted (rule ∷ rules) s pos room (h, hs) =
      let checked = consume key 1 limit duration now sliding_window s in
      let (allowed, taken) = consume-counted key limit duration now s pos in
      elim (Bool-cases (leb (counted key duration now s + 1) limit)) [
        | inl e ↦
            let taken' : counted key duration now checked.0 ≡ counted key duration now s + 1 =
              taken ∙ rw e refl in
            let (passes, takes) =
              handle-counted rules checked.0 pos (ground (arith, taken', e)) hs in
            rw (handle-step rule rules s h ∙ after-allowed _ s checked (allowed ∙ e))
              (passes ∙ rw taken' (ground arith), takes ∙ rw taken' (ground arith))
        | inr e ↦
            let taken' : counted key duration now checked.0 ≡ counted key duration now s =
              taken ∙ rw e refl in
            rw (handle-step rule rules s h ∙ after-refused _ s checked (allowed ∙ e))
              (ground (arith, e, room), ground (arith, e, room, taken'))
      ]
