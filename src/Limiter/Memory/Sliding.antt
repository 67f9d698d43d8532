-- ===== src/Limiter/Memory/Sliding.antt =====
-- packages/limiter/src/backends/memory.ts: the sliding window, against the history of all points
-- that were ever granted to a key.
use nexusts.Prelude.{
  ℕ, zero, suc, ◌+◌, ◌≤◌, ◌<◌, ◌≡◌, refl, ap, ◌∙◌, sym, Bool, false, ◌&&◌, List, [], ◌∷◌, ◌++◌,
  Option, leb, ltb, if◌then◌else◌, length, filter, count_if, replicate, arith, length-append,
  length-replicate, filter-append, All, All-append, Bool-cases, inl, inr, leb→le, append-nil,
}
use nexusts.Limiter.Memory.{RateLimitResult, in_window, log_of, count_fresh, count_sliding}

-- The entries from time `a` on, for less than `duration`.
abbrev pub in_span : ℕ → ℕ → ℕ → Bool
in_span a duration t = leb a t && ltb t (a + duration)

abbrev AllUpTo : ℕ → List ℕ → Type 0
AllUpTo now = All (λ t. t ≤ now)

AllUpTo-later : (now now' : ℕ) (h : List ℕ) → now ≤ now' → AllUpTo now h → AllUpTo now' h
AllUpTo-later now now' [] le a = tt
AllUpTo-later now now' (t ∷ h) le (p, a) = (omega arith, AllUpTo-later now now' h le a)

AllUpTo-replicate : (n now : ℕ) → AllUpTo now (replicate n now)
AllUpTo-replicate zero now = tt
AllUpTo-replicate (suc n) now = (omega arith, AllUpTo-replicate n now)

filter_twice :
    (now now' d : ℕ) (h : List ℕ)
    → now ≤ now'
    → filter (in_window now' d) (filter (in_window now d) h) ≡ filter (in_window now' d) h
filter_twice now now' d [] le = refl
filter_twice now now' d (t ∷ h) le = ground (arith, filter_twice now now' d h le)

filter-replicate_window :
    (n now d : ℕ) → 0 < d → filter (in_window now d) (replicate n now) ≡ replicate n now
filter-replicate_window zero now d pos = refl
filter-replicate_window (suc n) now d pos = ground (arith, filter-replicate_window n now d pos)

-- A span that holds `now` holds only entries of the trailing window of `now`.
span-le-window :
    (a now d : ℕ) (h : List ℕ)
    → AllUpTo now h
    → a ≤ now
    → now < a + d
    → count_if (in_span a d) h ≤ length (filter (in_window now d) h)
span-le-window a now d [] u p q = omega arith
span-le-window a now d (t ∷ h) (v, u) p q = ground (arith, span-le-window a now d h u p q)

span-replicate_out :
    (a now d n : ℕ) → in_span a d now ≡ false → count_if (in_span a d) (replicate n now) ≡ 0
span-replicate_out a now d zero e = refl
span-replicate_out a now d (suc n) e = rw e (span-replicate_out a now d n e)

count_if-le {ℓ} : {A : Type ℓ} (p : A → Bool) (xs : List A) → count_if p xs ≤ length xs
count_if-le p [] = omega arith
count_if-le p (x ∷ xs) = ground (arith, count_if-le p xs)

-- The stored log is the trailing window of the history, and no span of the duration holds more
-- than the limit.
pub record IsTracked (limit duration now : ℕ) (log history : List ℕ) : Type 0 where
  pub window : log ≡ filter (in_window now duration) history
  pub past : All (λ t. t ≤ now) history
  pub limited : (a : ℕ) → count_if (in_span a duration) history ≤ limit

abbrev pub granted : ℕ → ℕ → RateLimitResult → List ℕ
granted points now r = if r.allowed then replicate points now else []

module _ (limit duration : ℕ) (pos : 0 < duration) where
  -- The granted points fit into every span.
  grant_limited :
      (points now a : ℕ) (h : List ℕ)
      → AllUpTo now h
      → length (filter (in_window now duration) h) + points ≤ limit
      → count_if (in_span a duration) h ≤ limit
      → count_if (in_span a duration) (h ++ replicate points now) ≤ limit
  grant_limited points now a h u room old =
      rw (filter-append (in_span a duration) h (replicate points now))
        (elim (Bool-cases (in_span a duration now)) [
          | inl inside ↦ omega (
            arith,
            span-le-window a now duration h u (ground arith) (ground arith),
            count_if-le (in_span a duration) (replicate points now),
            length-replicate points now,
            length-append (filter (in_span a duration) h)
                (filter (in_span a duration) (replicate points now)),
          )
          | inr outside ↦ omega (
            arith,
            span-replicate_out a now duration points outside,
            length-append (filter (in_span a duration) h)
                (filter (in_span a duration) (replicate points now)),
          )
        ])

  count_fresh-IsTracked :
      (points now : ℕ) (h : List ℕ)
      → AllUpTo now h
      → ((a : ℕ) → count_if (in_span a duration) h ≤ limit)
      → IsTracked limit duration now
          (count_fresh points limit duration now (filter (in_window now duration) h)).0
          (h
            ++ granted points now
                (count_fresh points limit duration now (filter (in_window now duration) h)).1)
  unfolding count_fresh
  count_fresh-IsTracked points now h u old =
      elim (Bool-cases (leb (length (filter (in_window now duration) h) + points) limit)) [
        | inl fits ↦ rw fits (record {
          window = sym (
              filter-append (in_window now duration) h (replicate points now)
              ∙ ap (◌++◌ (filter (in_window now duration) h))
                  (filter-replicate_window points now duration pos));
          past =
              All-append (λ t. t ≤ now) h (replicate points now) u (AllUpTo-replicate points now);
          limited = λ a. grant_limited points now a h u (leb→le _ _ fits) (old a);
        })
        | inr full ↦ rw (full, append-nil) (record { window = refl; past = u; limited = old })
      ]

  pub count_sliding-IsTracked :
      (points now now' : ℕ) (stored : Option (List ℕ)) (h : List ℕ)
      → now ≤ now'
      → IsTracked limit duration now (log_of stored) h
      → IsTracked limit duration now'
          (count_sliding points limit duration now' stored).0
          (h ++ granted points now' (count_sliding points limit duration now' stored).1)
  unfolding count_sliding
  count_sliding-IsTracked points now now' stored h le t =
      let e : filter (in_window now' duration) (log_of stored)
          ≡ filter (in_window now' duration) h =
        ap (filter (in_window now' duration)) t.window ∙ filter_twice now now' duration h le in
      rw e (count_fresh-IsTracked points now' h (AllUpTo-later now now' h le t.past) t.limited)

pub IsTracked-window :
    (limit duration now now' : ℕ) (log h : List ℕ)
    → now ≤ now'
    → IsTracked limit duration now log h
    → filter (in_window now' duration) log ≡ filter (in_window now' duration) h
IsTracked-window limit duration now now' log h le t =
    ap (filter (in_window now' duration)) t.window ∙ filter_twice now now' duration h le
