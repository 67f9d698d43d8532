-- ===== src/Resilience/Circuit/Window.antt =====
-- packages/resilience/src/circuit-breaker.ts: the rolling window of samples, and when it opens the
-- circuit.
use nexusts.Prelude.{
  ℕ, zero, suc, ◌+◌, ◌*◌, ◌≤◌, ◌≡◌, refl, ◌↔◌, inl, inr, Bool, true, false, List, [], ◌∷◌, ◌++◌,
  arith, length, filter, drop, drop_while, count_if, Bool-cases, All, All-drop_while, All-append,
  ◌∙◌,
}
use nexusts.Resilience.Circuit.{
  closed, opened, Config, Circuit, Sample, failed, is_fresh, is_stale, record_call, push_sample,
  settle_call,
}

-- Times grow along the list, from `lo` on.
abbrev pub IsOrdered : ℕ → List Sample → Type 0
IsOrdered lo [] = Unit
IsOrdered lo (s ∷ xs) = (lo ≤ s.ts) × IsOrdered s.ts xs

-- The samples are in the order of their times, none is later than the clock.
pub record IsLogged (clock : ℕ) (samples : List Sample) : Type 0 where
  pub ordered : IsOrdered 0 samples
  pub past : All (λ s. s.ts ≤ clock) samples

pub IsOrdered-weaken :
    (lo lo' : ℕ) (xs : List Sample) → lo' ≤ lo → IsOrdered lo xs → IsOrdered lo' xs
IsOrdered-weaken lo lo' [] h o = tt
IsOrdered-weaken lo lo' (s ∷ xs) h (p, o) = (omega arith, o)

pub IsOrdered-append :
    (lo : ℕ) (xs : List Sample) (x : Sample)
    → IsOrdered lo xs
    → All (λ s. s.ts ≤ x.ts) xs
    → lo ≤ x.ts
    → IsOrdered lo (xs ++ x ∷ [])
IsOrdered-append lo [] x o h p = (p, tt)
IsOrdered-append lo (s ∷ xs) x (q, o) (k, h) p = (q, IsOrdered-append s.ts xs x o h k)

pub IsOrdered-drop : (lo n : ℕ) (xs : List Sample) → IsOrdered lo xs → IsOrdered lo (drop n xs)
IsOrdered-drop lo zero xs o = o
IsOrdered-drop lo (suc n) [] o = tt
IsOrdered-drop lo (suc n) (s ∷ xs) (p, o) =
    IsOrdered-weaken s.ts lo (drop n xs) p (IsOrdered-drop s.ts n xs o)

filter_fresh :
    (now w lo : ℕ) (xs : List Sample)
    → IsOrdered lo xs
    → now ≤ lo + w
    → filter (is_fresh now w) xs ≡ xs
filter_fresh now w lo [] o h = refl
filter_fresh now w lo (s ∷ xs) (p, o) h = ground (arith, filter_fresh now w s.ts xs o)

-- Dropping the stale front leaves exactly the fresh samples.
pub drop_while-filter :
    (now w lo : ℕ) (xs : List Sample)
    → IsOrdered lo xs
    → drop_while (is_stale now w) xs ≡ filter (is_fresh now w) xs
drop_while-filter now w lo [] o = refl
drop_while-filter now w lo (s ∷ xs) (p, o) =
    ground (arith, drop_while-filter now w s.ts xs o, filter_fresh now w s.ts xs o)

pub IsOrdered-drop_while :
    (now w lo : ℕ) (xs : List Sample)
    → IsOrdered lo xs
    → IsOrdered lo (drop_while (is_stale now w) xs)
IsOrdered-drop_while now w lo [] o = tt
IsOrdered-drop_while now w lo (s ∷ xs) (p, o) = elim (Bool-cases (is_stale now w s)) [
  | inl e ↦ rw e (IsOrdered-weaken s.ts lo _ p (IsOrdered-drop_while now w s.ts xs o))
  | inr e ↦ rw e (p, o)
]

abbrev pub sample_at : ℕ → Bool → Sample
sample_at now ok = record { ts = now; ok = ok }

pub All-later :
    (clock now : ℕ) (xs : List Sample)
    → clock ≤ now
    → All (λ s. s.ts ≤ clock) xs
    → All (λ s. s.ts ≤ now) xs
All-later clock now [] h a = tt
All-later clock now (x ∷ xs) h (p, a) = (omega arith, All-later clock now xs h a)

-- A new sample keeps the log in order.
pub push_sample-IsLogged :
    (cfg : Config) (clock now : ℕ) (ok : Bool) (c : Circuit)
    → clock ≤ now
    → IsLogged clock c.samples
    → IsLogged now (push_sample cfg now ok c).samples
unfolding push_sample
push_sample-IsLogged cfg clock now ok c h l =
    let past = All-later clock now c.samples h l.past in
    record {
      ordered =
          IsOrdered-drop_while now cfg.window 0 _
            (IsOrdered-append 0 c.samples (sample_at now ok) l.ordered past (omega arith));
      past =
          All-drop_while (λ s. s.ts ≤ now) _ _
            (All-append (λ s. s.ts ≤ now) c.samples _ past (omega arith, tt));
    }

-- The calls of the trailing window, the one that ends now among them.
abbrev pub trailing : Config → ℕ → Bool → Circuit → List Sample
trailing cfg now ok c = filter (is_fresh now cfg.window) (c.samples ++ sample_at now ok ∷ [])

pub push_sample-trailing :
    (cfg : Config) (clock now : ℕ) (ok : Bool) (c : Circuit)
    → clock ≤ now
    → IsLogged clock c.samples
    → (push_sample cfg now ok c).samples ≡ trailing cfg now ok c
unfolding push_sample
push_sample-trailing cfg clock now ok c h l = drop_while-filter now cfg.window 0 _ (
    IsOrdered-append 0 c.samples (sample_at now ok) l.ordered
      (All-later clock now c.samples h l.past) (omega arith))

settle_call_opened_iff :
    (cfg : Config) (now : ℕ) (ok : Bool) (c : Circuit)
    → c.state ≡ closed
    → ((settle_call cfg now ok c).state ≡ opened) ↔ (
        (ok ≡ false)
        × (cfg.min_calls ≤ length c.samples)
        × (cfg.threshold_num * length c.samples ≤ count_if failed c.samples * cfg.threshold_den))
unfolding settle_call
settle_call_opened_iff cfg now true c s = ground arith
settle_call_opened_iff cfg now false c s = ground arith

push_sample-state :
    (cfg : Config) (now : ℕ) (ok : Bool) (c : Circuit) → (push_sample cfg now ok c).state ≡ c.state
unfolding push_sample
push_sample-state cfg now ok c = refl

-- When the end of a call trips the closed circuit: a failure, in a trailing window that holds at
-- least the minimum of calls and whose failures reach the threshold.
abbrev pub Trips : Config → ℕ → Bool → Circuit → Type 0
Trips cfg now ok c =
    (ok ≡ false)
    × (cfg.min_calls ≤ length (trailing cfg now ok c))
    × (cfg.threshold_num * length (trailing cfg now ok c)
        ≤ count_if failed (trailing cfg now ok c) * cfg.threshold_den)

-- If the samples are in order and none is later than now, the end of a call of the closed circuit
-- opens it exactly if the call failed, the trailing window holds at least the minimum of calls, and
-- the failures among them reach the threshold.
pub record_call-opened_iff :
    (cfg : Config) (clock now : ℕ) (ok : Bool) (c : Circuit)
    → clock ≤ now
    → IsLogged clock c.samples
    → c.state ≡ closed
    → ((record_call cfg now ok closed c).state ≡ opened) ↔ Trips cfg now ok c
unfolding record_call
record_call-opened_iff cfg clock now ok c h l s =
    rw (← push_sample-trailing cfg clock now ok c h l) (
      settle_call_opened_iff cfg now ok (push_sample cfg now ok c)
        (push_sample-state cfg now ok c ∙ s))
