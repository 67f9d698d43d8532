-- ===== src/Resilience/Circuit/Admission.antt =====
-- packages/resilience/src/circuit-breaker.ts: which calls `execute` lets through, and what a probe
-- of the half-open state does to it.
use nexusts.Prelude.{
  ℕ, ◌+◌, ◌≤◌, ◌<◌, ◌≡◌, refl, ◌↔◌, ◌⊎◌, Bool, true, false, List, [], ◌∷◌, arith, replicate, length,
  All,
}
use nexusts.Resilience.Circuit.{
  CircuitState, closed, opened, half_open, Config, Circuit, Entry, circuit_open, admitted, enter,
  record_call,
}

-- When a call is let in, and as which kind of call.
abbrev pub LetIn : Config → ℕ → Circuit → CircuitState → Type 0
LetIn cfg now c s =
    ((c.state ≡ closed) × (s ≡ closed))
    ⊎ ((c.state ≡ half_open) × (s ≡ half_open) × (c.in_flight < c.allowed))
    ⊎ ((c.state ≡ opened)
        × (s ≡ half_open)
        × (c.opened_at + cfg.timeout ≤ now)
        × (0 < cfg.half_open_after))

-- A call is let in exactly if the circuit is closed, or half-open with a free probe, or open for
-- at least the timeout where probes are configured at all; it is remembered as a call of the closed
-- circuit in the first case and as a probe in the others.
pub enter_iff :
    (cfg : Config) (now : ℕ) (c : Circuit) (s : CircuitState)
    → ((enter cfg now c).1 ≡ admitted s) ↔ LetIn cfg now c s
unfolding enter
enter_iff cfg now c s = ground arith

-- How a probe ended: when, and whether it succeeded.
pub record Ended : Type 0 where
  pub ts : ℕ
  pub ok : Bool

-- The ends of probes, one after another, with no other event between them.
unfoldable pub record_all : Config → List Ended → Circuit → Circuit
record_all cfg [] c = c
record_all cfg (e ∷ ends) c = record_all cfg ends (record_call cfg e.ts e.ok half_open c)

-- The circuit that a probe leaves if it ends last: nothing of how it was before is left in the state.
abbrev pub AfterLast : Ended → Circuit → Type 0
AfterLast e d =
    ((e.ok ≡ true) × (d.state ≡ closed) × (d.samples ≡ []))
    ⊎ ((e.ok ≡ false) × (d.state ≡ opened) × (d.opened_at ≡ e.ts))

-- Attempts at the given times, one after another, with no other event between them.
unfoldable pub enter_all : Config → List ℕ → Circuit → Circuit × List Entry
enter_all cfg [] c = (c, [])
enter_all cfg (now ∷ times) c =
    let (c', e) = enter cfg now c in let (d, es) = enter_all cfg times c' in (d, e ∷ es)

enter_opened :
    (cfg : Config) (now : ℕ) (c : Circuit)
    → c.state ≡ opened
    → now < c.opened_at + cfg.timeout
    → enter cfg now c ≡ (c, circuit_open (c.opened_at + cfg.timeout))
unfolding enter
enter_opened cfg now c s h = ground arith

-- Until the timeout has passed since the opening, every attempt is refused with the same time of
-- the next try, and changes nothing.
enter_all-opened :
    (cfg : Config) (times : List ℕ) (c : Circuit)
    → c.state ≡ opened
    → All (λ now. now < c.opened_at + cfg.timeout) times
    → enter_all cfg times c
      ≡ (c, replicate (length times) (circuit_open (c.opened_at + cfg.timeout)))
unfolding enter_all
enter_all-opened cfg [] c s h = refl
enter_all-opened cfg (now ∷ times) c s (p, h) =
    rw (enter_opened cfg now c s p, enter_all-opened cfg times c s h)
