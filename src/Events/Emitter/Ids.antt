-- ===== src/Events/Emitter/Ids.antt =====
-- packages/events/src/emitter.ts: the ids of listeners, and what they select.
use text.Mathlib.TextLemmas.{append_cancel_left}
use nexusts.Prelude.{
  ℕ, ◌≡◌, refl, sym, ap, subst, ◌∙◌, Bool, false, not, ◌||◌, List, [], ◌∷◌, String, str_eq, eq_iff,
  eq_refl, arith, filter, Bool-cases, inl, inr,
}
use nexusts.Prelude.JsSet
use nexusts.Prelude.JsSet.{JsSet}
use nexusts.Prelude.Decimal.{decimal, read_digits, read_digits-decimal}
use nexusts.Events.Listener.{InternalListener}
use nexusts.Events.Emitter.{id_of, insert, ids_of, add_ids, without}

-- Two numbers have two ids.
pub id_of_inj : (m n : ℕ) → id_of m ≡ id_of n → m ≡ n
unfolding id_of
id_of_inj m n e =
    sym (read_digits-decimal m)
    ∙ ap (read_digits 0) (append_cancel_left "evt-" (decimal m) (decimal n) e)
    ∙ read_digits-decimal n

module _ {P : Type 0} where
  abbrev pub has_id : String → List (InternalListener P) → Bool
  has_id i [] = false
  has_id i (l ∷ ls) = str_eq l.id i || has_id i ls

  -- No two listeners have one id.
  abbrev pub Distinct : List (InternalListener P) → Type 0
  Distinct [] = Unit
  Distinct (l ∷ ls) = (has_id l.id ls ≡ false) × Distinct ls

  pub has_id-filter :
      (p : InternalListener P → Bool) (i : String) (ls : List (InternalListener P))
      → has_id i ls ≡ false
      → has_id i (filter p ls) ≡ false
  has_id-filter p i [] h = refl
  has_id-filter p i (l ∷ ls) h = ground (arith, has_id-filter p i ls)

  pub Distinct-filter :
      (p : InternalListener P → Bool) (ls : List (InternalListener P))
      → Distinct ls
      → Distinct (filter p ls)
  Distinct-filter p [] h = tt
  Distinct-filter p (l ∷ ls) (new, h) =
      ground (arith, has_id-filter p l.id ls new, Distinct-filter p ls h)

  pub has_id-insert :
      (i : String) (l : InternalListener P) (ls : List (InternalListener P))
      → has_id i (insert l ls) ≡ (str_eq l.id i || has_id i ls)
  unfolding insert
  has_id-insert i l [] = refl
  has_id-insert i l (x ∷ xs) = ground (arith, has_id-insert i l xs)

  pub Distinct-insert :
      (l : InternalListener P) (ls : List (InternalListener P))
      → has_id l.id ls ≡ false
      → Distinct ls
      → Distinct (insert l ls)
  unfolding insert
  Distinct-insert l [] new h = (refl, tt)
  Distinct-insert l (x ∷ xs) new (a, h) = ground (
    arith,
    new,
    a,
    eq_iff l.id x.id,
    eq_iff x.id l.id,
    has_id-insert x.id l xs,
    Distinct-insert l xs,
  )

  -- The set of the ids of a list, as `new Set(…)` makes it.
  has-add_ids :
      (i : String) (ls : List (InternalListener P)) (s : JsSet)
      → JsSet.has i (add_ids (ids_of ls) s) ≡ (has_id i ls || JsSet.has i s)
  has-add_ids i [] s = refl
  has-add_ids i (l ∷ ls) s =
      has-add_ids i ls (JsSet.add l.id s) ∙ ground (arith, JsSet.has-add l.id i s)

  pub has-ids :
      (i : String) (ls : List (InternalListener P))
      → JsSet.has i (add_ids (ids_of ls) []) ≡ has_id i ls
  has-ids i ls = has-add_ids i ls [] ∙ ground arith

  -- Among listeners with distinct ids, the ids of those that pass a test select just those.
  abbrev Selects :
      (String → Bool) → (InternalListener P → Bool) → List (InternalListener P) → Type 0
  Selects f p [] = Unit
  Selects f p (l ∷ ls) = (f l.id ≡ p l) × Selects f p ls

  Selects-cons :
      (f : String → Bool) (p : InternalListener P → Bool) (i : String)
      (ls : List (InternalListener P))
      → has_id i ls ≡ false
      → Selects f p ls
      → Selects (λ j. str_eq i j || f j) p ls
  Selects-cons f p i [] new h = tt
  Selects-cons f p i (l ∷ ls) new (a, h) =
      ground (arith, eq_iff i l.id, eq_iff l.id i, Selects-cons f p i ls)

  filter-Selects :
      (p : InternalListener P → Bool) (ls : List (InternalListener P))
      → Distinct ls
      → Selects (λ i. has_id i (filter p ls)) p ls
  filter-Selects p [] h = tt
  filter-Selects p (l ∷ ls) (new, h) = elim (Bool-cases (p l)) [
    | inl e ↦
        let kept : filter p (l ∷ ls) ≡ l ∷ filter p ls = rw e refl in
        subst (λ (ms : List (InternalListener P)). Selects (λ i. has_id i ms) p (l ∷ ls)) (sym kept)
          (
            ground (arith, eq_refl l.id, e),
            Selects-cons (λ i. has_id i (filter p ls)) p l.id ls new (filter-Selects p ls h),
          )
    | inr e ↦
        let left_out : filter p (l ∷ ls) ≡ filter p ls = rw e refl in
        subst (λ (ms : List (InternalListener P)). Selects (λ i. has_id i ms) p (l ∷ ls))
          (sym left_out) (ground (arith, has_id-filter p l.id ls new, e), filter-Selects p ls h)
  ]

  Selects-filter :
      (f : String → Bool) (p : InternalListener P → Bool) (ls : List (InternalListener P))
      → Selects f p ls
      → filter (λ l. not (f l.id)) ls ≡ filter (λ l. not (p l)) ls
  Selects-filter f p [] h = refl
  Selects-filter f p (l ∷ ls) (e, h) = ground (arith, e, Selects-filter f p ls h)

  Selects-ids :
      (q : InternalListener P → Bool) (ls ms : List (InternalListener P))
      → Selects (λ i. has_id i ms) q ls
      → Selects (λ i. JsSet.has i (add_ids (ids_of ms) [])) q ls
  Selects-ids q [] ms h = tt
  Selects-ids q (l ∷ ls) ms (e, h) = (has-ids l.id ms ∙ e, Selects-ids q ls ms h)

  -- The clean-up by ids removes just the listeners that pass the test.
  pub without-filter :
      (p : InternalListener P → Bool) (ls : List (InternalListener P))
      → Distinct ls
      → without (add_ids (ids_of (filter p ls)) []) ls ≡ filter (λ l. not (p l)) ls
  without-filter p ls h =
      Selects-filter (λ i. JsSet.has i (add_ids (ids_of (filter p ls)) [])) p ls
        (Selects-ids p ls (filter p ls) (filter-Selects p ls h))
