-- ===== src/Resilience/Bulkhead/Progress.antt =====
-- packages/resilience/src/bulkhead.ts: waiters are served in the order in which they came, and all
-- of them are, as long as the calls that run come to an end.
use nexusts.Prelude.{
  ℕ, zero, suc, ◌+◌, ◌*◌, ◌<◌, ◌≡◌, refl, ap, ◌∙◌, sym, ◌⊎◌, inl, inr, Bool, true, false, List, [],
  ◌∷◌, ◌++◌, append_assoc, append-nil, arith, length, length-append, Option, none, some, not, ◌&&◌,
  List-cases,
}
use nexusts.Resilience.Bulkhead.{SlotToken, call, take_next, resume, finish}
use native.Mathlib.Decide.{dec_lt}
use nexusts.Resilience.Bulkhead.Steps.{
  World, Step, calling, resuming, finishing, cancelling, Reach, here, next, start, IsSound,
  Reach-IsSound, Step-IsSound, take_next-total, after_call, after_finish, wake,
}

abbrev pub ids : List SlotToken → List ℕ
ids [] = []
ids (t ∷ q) = t.id ∷ ids q

ids-append : (p q : List SlotToken) → ids (p ++ q) ≡ ids p ++ ids q
ids-append [] q = refl
ids-append (t ∷ p) q = ap (◌∷◌ t.id) (ids-append p q)

abbrev pub all_live : List SlotToken → Bool
all_live [] = true
all_live (t ∷ q) = not t.cancelled && all_live q

all_live-append : (p q : List SlotToken) → all_live (p ++ q) ≡ (all_live p && all_live q)
all_live-append [] q = refl
all_live-append (t ∷ p) q = ground (arith, all_live-append p q)

-- The first waiter of a queue without cancelled tokens is the one that is woken.
take_next-live :
    (q : List SlotToken)
    → all_live q ≡ true
    → (all_live (take_next q).0 ≡ true) × (wake (take_next q).1 [] ++ ids (take_next q).0 ≡ ids q)
unfolding take_next
take_next-live [] h = (refl, refl)
take_next-live (t ∷ q) h = ground arith

wake-append : (o : Option ℕ) (l : List ℕ) → wake o l ≡ l ++ wake o []
wake-append none l = sym (append-nil l)
wake-append (some id) l = refl

-- No waiter of the queue is cancelled, and those served, then those that wait, are all that came.
pub record IsInOrder (w : World) : Type 0 where
  pub live : all_live w.bulkhead.queue ≡ true
  pub order : w.served ++ ids w.bulkhead.queue ≡ w.arrived

calling-IsInOrder :
    (w : World) (id : ℕ) → IsInOrder w → IsInOrder (after_call id w (call id w.bulkhead))
unfolding call
calling-IsInOrder w id o = ground (
  arith,
  all_live-append w.bulkhead.queue (record { id = id; cancelled = false } ∷ []),
  ids-append w.bulkhead.queue (record { id = id; cancelled = false } ∷ []),
  append_assoc w.served (ids w.bulkhead.queue) (id ∷ []),
)

finishing-IsInOrder : (w : World) → IsInOrder w → IsInOrder (after_finish w (finish w.bulkhead))
unfolding finish
finishing-IsInOrder w o =
    let q = w.bulkhead.queue in
    let (live, order) = take_next-live q o.live in
    ground (
      arith,
      wake-append (take_next q).1 w.served,
      append_assoc w.served (wake (take_next q).1 []) (ids (take_next q).0),
    )

-- Steps that cancel no waiter, as no code outside the class can.
abbrev pub Keeps : {u v : World} → Step u v → Type 0
Keeps (cancelling w id) = ⊥
Keeps _ = Unit

abbrev pub AllKeep : {u v : World} → Reach u v → Type 0
AllKeep here = Unit
AllKeep (next r st) = AllKeep r × Keeps st

Step-IsInOrder : {u v : World} (st : Step u v) → Keeps st → IsInOrder u → IsInOrder v
Step-IsInOrder (calling w id) k o = calling-IsInOrder w id o
Step-IsInOrder (resuming w id rest e) k o =
    unfold resume in record { live = o.live; order = o.order }
Step-IsInOrder (finishing w h) k o = finishing-IsInOrder w o
Step-IsInOrder (cancelling w id) k o = absurd k

-- As long as no waiter is cancelled, the waiters served so far, followed by those in the queue, are
-- exactly those that ever waited, in the order in which they came.
pub Reach-IsInOrder :
    (cap room : ℕ) {w : World} (r : Reach (start cap room) w) → AllKeep r → IsInOrder w
Reach-IsInOrder cap room here k = record { live = refl; order = refl }
Reach-IsInOrder cap room (next r st) (k, h) = Step-IsInOrder st h (Reach-IsInOrder cap room r k)

-- What is still to do: each waiter is woken, goes on and ends.
abbrev pub work : World → ℕ
work w = 3 * length w.bulkhead.queue + 2 * length w.woken + w.running

pub Reach-trans : {u v w : World} → Reach u v → Reach v w → Reach u w
Reach-trans r here = r
Reach-trans r (next s st) = next (Reach-trans r s) st

pub record IsIdle (w : World) : Type 0 where
  pub no_waiter : w.bulkhead.queue ≡ []
  pub no_woken : w.woken ≡ []
  pub no_call : w.running ≡ 0

-- Steps in which woken waiters go on and running calls end.
abbrev pub Closes : {u v : World} → Step u v → Type 0
Closes (calling w id) = ⊥
Closes (cancelling w id) = ⊥
Closes _ = Unit

abbrev pub AllClose : {u v : World} → Reach u v → Type 0
AllClose here = Unit
AllClose (next r st) = AllClose r × Closes st

finish-work : (w : World) → 0 < w.running → work (after_finish w (finish w.bulkhead)) < work w
unfolding finish
finish-work w h = elim (take_next-total w.bulkhead.queue) [
  | inl (id, e, shorter) ↦ ground (arith, length-append w.woken (id ∷ []))
  | inr (e, f) ↦ ground arith
]

-- A state that is not idle has a step that leaves less to do.
advance :
    (cap room : ℕ) (w : World)
    → 0 < cap
    → IsSound cap room w
    → IsIdle w
      ⊎ ((v : World) × (st : Step w v) × Closes st × (work v < work w) × (v.arrived ≡ w.arrived))
advance cap room w pos s = elim (List-cases w.woken) [
  | inr (id, rest, e) ↦ inr (_, resuming w id rest e, tt, unfold resume in ground arith, refl)
  | inl e ↦ elim (dec_lt 0 w.running) [
    | yes h ↦ inr (_, finishing w h, tt, finish-work w h, refl)
    | no h ↦ inl (record { no_waiter = ground arith; no_woken = e; no_call = omega arith })
  ]
]

AllClose-trans :
    {u v w : World} (r : Reach u v) (s : Reach v w)
    → AllClose r
    → AllClose s
    → AllClose (Reach-trans r s)
unfolding Reach-trans
AllClose-trans r here h k = h
AllClose-trans r (next s st) h (k, c) = (AllClose-trans r s h k, c)

Closes-Keeps : {u v : World} (st : Step u v) → Closes st → Keeps st
Closes-Keeps (calling w id) c = absurd c
Closes-Keeps (resuming w id rest e) c = tt
Closes-Keeps (finishing w h) c = tt
Closes-Keeps (cancelling w id) c = c

AllKeep-trans :
    {u v w : World} (r : Reach u v) (s : Reach v w)
    → AllKeep r
    → AllClose s
    → AllKeep (Reach-trans r s)
unfolding Reach-trans
AllKeep-trans r here h k = h
AllKeep-trans r (next s st) h (k, c) = (AllKeep-trans r s h k, Closes-Keeps st c)

settle :
    (cap room n : ℕ) (w : World)
    → 0 < cap
    → IsSound cap room w
    → work w < n
    → (v : World) × (r : Reach w v) × AllClose r × IsIdle v × (v.arrived ≡ w.arrived)
settle cap room zero w pos s h = absurd (omega arith)
settle cap room (suc n) w pos s h = elim (advance cap room w pos s) [
  | inl idle ↦ (w, here, tt, idle, refl)
  | inr (u, st, closes, less, same) ↦
      let (v, r, all, idle, same') = settle cap room n u pos (Step-IsSound st s) (omega arith) in
      (
        v,
        Reach-trans (next here st) r,
        AllClose-trans (next here st) r (tt, closes) all,
        idle,
        same' ∙ same,
      )
]

served-idle : (v : World) → IsIdle v → IsInOrder v → v.served ≡ v.arrived
served-idle v idle o = sym (append-nil v.served) ∙ rw idle.no_waiter at o.order

-- With at least one slot, no waiter is lost: from every reachable state in which nobody was
-- cancelled, letting woken waiters go on and running calls end, with no new call, leads to an idle
-- state in which all that ever waited have been served, in the order in which they came.
pub Reach-settles :
    (cap room : ℕ) {w : World} (r : Reach (start cap room) w)
    → 0 < cap
    → AllKeep r
    → (v : World) × (s : Reach w v) × AllClose s × IsIdle v × (v.served ≡ w.arrived)
Reach-settles cap room {w} r pos k =
    let (v, s, all, idle, same) =
      settle cap room (work w + 1) w pos (Reach-IsSound cap room r) (omega arith) in
    let o = Reach-IsInOrder cap room (Reach-trans r s) (AllKeep-trans r s k all) in
    (v, s, all, idle, served-idle v idle o ∙ same)
