-- ===== src/Events/Emitter/Runs.antt =====
-- packages/events/src/emitter.ts: what any sequence of operations keeps.
use nexusts.Prelude.{
  ℕ, ◌+◌, ◌≤◌, ◌<◌, ◌≡◌, ◌≢◌, refl, sym, ap, ◌∙◌, Bool, false, not, Option, List, [], ◌∷◌, ◌++◌,
  String, eq_iff, arith, filter, All, All-filter, Bool-cases, inl, inr, length, leb, get_or_else,
}
use nexusts.Prelude.JsSet
use nexusts.Events.Listener.{InternalListener, ListenerOptions, Reply}
use nexusts.Events.Emitter.{
  Emitter, constructed, id_of, insert, on, off, remove_all_listeners, remove_called, has_pattern,
  new_listener, is_called, ids_of, add_ids,
}
use nexusts.Events.Emitter.Ids.{id_of_inj, has_id, Distinct, Distinct-filter, Distinct-insert}
use nexusts.Events.Emitter.Sorting.{
  IsSorted, IsSorted-filter, insert-IsSorted, sort_listeners-insert, Older, up_to, beyond,
  insert_newest,
}

-- The id is that of a number below the next one.
abbrev pub Numbered : {P : Type 0} → ℕ → InternalListener P → Type 0
Numbered n l = (k : ℕ) × (k < n) × (l.id ≡ id_of k)

abbrev pub count_pattern : {P : Type 0} → String → List (InternalListener P) → ℕ
count_pattern pattern ls = length (filter (has_pattern pattern) ls)

module _ {P : Type 0} where
  -- The listeners are in the order of dispatch, none is newer than the clock, their ids are distinct
  -- and numbered, and no pattern has more listeners than the limit.
  pub record IsOrderly (now max : ℕ) (e : Emitter P) : Type 0 where
    pub ordered : IsSorted e.listeners
    pub older : All (Older now) e.listeners
    pub distinct : Distinct e.listeners
    pub numbered : All (Numbered e.next_id) e.listeners
    pub limit : e.max_per_pattern ≡ max
    pub bounded : (pattern : String) → count_pattern pattern e.listeners ≤ max

  Older-later :
      (now later : ℕ) (ls : List (InternalListener P))
      → now ≤ later
      → All (Older now) ls
      → All (Older later) ls
  Older-later now later [] le h = tt
  Older-later now later (l ∷ ls) le (o, h) = (omega (arith, o), Older-later now later ls le h)

  pub IsOrderly-later :
      (now later max : ℕ) (e : Emitter P)
      → now ≤ later
      → IsOrderly now max e
      → IsOrderly later max e
  IsOrderly-later now later max e le s = record {
    ordered = s.ordered;
    older = Older-later now later e.listeners le s.older;
    distinct = s.distinct;
    numbered = s.numbered;
    limit = s.limit;
    bounded = s.bounded;
  }

  pub constructed-IsOrderly :
      (now : ℕ) (max : Option ℕ) (throw : Option Bool) (priority : Option ℕ)
      → IsOrderly now (get_or_else max 10) (constructed {P = P} max throw priority)
  unfolding constructed
  constructed-IsOrderly now max throw priority = record {
    ordered = tt;
    older = tt;
    distinct = tt;
    numbered = tt;
    limit = refl;
    bounded = λ pattern. omega arith;
  }

  All-insert :
      (Q : InternalListener P → Type 0) (l : InternalListener P) (ls : List (InternalListener P))
      → Q l
      → All Q ls
      → All Q (insert l ls)
  unfolding insert
  All-insert Q l [] q h = (q, tt)
  All-insert Q l (x ∷ xs) q (a, h) = ground (arith, q, a, h, All-insert Q l xs q h)

  Numbered-suc :
      (n : ℕ) (ls : List (InternalListener P)) → All (Numbered n) ls → All (Numbered (n + 1)) ls
  Numbered-suc n [] h = tt
  Numbered-suc n (l ∷ ls) ((k, lt, e), h) = ((k, omega (arith, lt), e), Numbered-suc n ls h)

  Numbered-has_id :
      (n : ℕ) (ls : List (InternalListener P)) → All (Numbered n) ls → has_id (id_of n) ls ≡ false
  Numbered-has_id n [] h = refl
  Numbered-has_id n (l ∷ ls) ((k, lt, e), h) =
      let other : l.id ≢ id_of n = λ q. omega (arith, lt, id_of_inj k n (sym e ∙ q)) in
      ground (arith, eq_iff l.id (id_of n), other, Numbered-has_id n ls h)

  count_pattern-insert :
      (pattern : String) (l : InternalListener P) (ls : List (InternalListener P))
      → count_pattern pattern (insert l ls) ≡ count_pattern pattern (l ∷ ls)
  unfolding insert
  count_pattern-insert pattern l [] = refl
  count_pattern-insert pattern l (x ∷ xs) = ground (arith, count_pattern-insert pattern l xs)

  count_pattern-filter-le :
      (pattern : String) (p : InternalListener P → Bool) (ls : List (InternalListener P))
      → count_pattern pattern (filter p ls) ≤ count_pattern pattern ls
  count_pattern-filter-le pattern p [] = omega arith
  count_pattern-filter-le pattern p (l ∷ ls) = ground (arith, count_pattern-filter-le pattern p ls)

  -- A removal by any test.
  filtered-IsOrderly :
      (now max : ℕ) (p : InternalListener P → Bool) (e e' : Emitter P)
      → e'.listeners ≡ filter p e.listeners
      → e'.next_id ≡ e.next_id
      → e'.max_per_pattern ≡ e.max_per_pattern
      → IsOrderly now max e
      → IsOrderly now max e'
  filtered-IsOrderly now max p e e' kept same same' s = record {
    ordered = rw kept (IsSorted-filter p e.listeners s.ordered);
    older = rw kept (All-filter (Older now) p e.listeners s.older);
    distinct = rw kept (Distinct-filter p e.listeners s.distinct);
    numbered = rw (kept, same) (All-filter (Numbered e.next_id) p e.listeners s.numbered);
    limit = same' ∙ s.limit;
    bounded = λ pattern.
        rw kept (omega (arith, count_pattern-filter-le pattern p e.listeners, s.bounded pattern));
  }

  pub off-IsOrderly :
      (now max : ℕ) (key : String) (e : Emitter P)
      → IsOrderly now max e
      → IsOrderly now max (off key e).0
  unfolding off
  off-IsOrderly now max key e s =
      filtered-IsOrderly now max (λ l. not (is_called key l)) e _ refl refl refl s

  cleared : (ls : List (InternalListener P)) → [] ≡ filter (λ l. false) ls
  cleared [] = refl
  cleared (l ∷ ls) = cleared ls

  pub remove_all-IsOrderly :
      (now max : ℕ) (e : Emitter P)
      → IsOrderly now max e
      → IsOrderly now max (remove_all_listeners e)
  unfolding remove_all_listeners
  remove_all-IsOrderly now max e s =
      filtered-IsOrderly now max (λ l. false) e _ (cleared e.listeners) refl refl s

  pub remove_called-IsOrderly :
      (now max : ℕ) (called : List (InternalListener P)) (e : Emitter P)
      → IsOrderly now max e
      → IsOrderly now max (remove_called called e)
  unfolding remove_called
  remove_called-IsOrderly now max [] e s = s
  remove_called-IsOrderly now max (l ∷ ls) e s =
      filtered-IsOrderly now max (λ x. not (JsSet.has x.id (add_ids (ids_of (l ∷ ls)) []))) e _ refl
        refl refl s

  module _ (now later max : ℕ) (pattern : String) (listener : P → Reply)
      (options : ListenerOptions P) (e : Emitter P) (le : now ≤ later)
      (s : IsOrderly now max e) where
    abbrev added : InternalListener P
    added = new_listener later pattern listener options e

    abbrev extended : Emitter P
    extended = (on later pattern listener options e).0

    -- The state after a call that registers.
    inserted-IsOrderly :
        (e' : Emitter P)
        → e'.listeners ≡ insert added e.listeners
        → e'.next_id ≡ e.next_id + 1
        → e'.max_per_pattern ≡ e.max_per_pattern
        → count_pattern pattern e.listeners < max
        → IsOrderly later max e'
    inserted-IsOrderly e' listed next same room = record {
      ordered = rw listed (insert-IsSorted added e.listeners s.ordered);
      older = rw listed (
          All-insert (Older later) added e.listeners (omega arith)
            (Older-later now later e.listeners le s.older));
      distinct = rw listed (
          Distinct-insert added e.listeners (Numbered-has_id e.next_id e.listeners s.numbered)
            s.distinct);
      numbered =
          rw (listed, next)
            (All-insert (Numbered (e.next_id + 1)) added e.listeners (e.next_id, omega arith, refl)
              (Numbered-suc e.next_id e.listeners s.numbered));
      limit = same ∙ s.limit;
      bounded = λ q.
          rw (listed, count_pattern-insert q added e.listeners)
            (ground (
              arith,
              eq_iff pattern q,
              ap (λ (k : String). count_pattern k e.listeners),
              room,
              s.bounded q,
            ));
    }

    on-listeners :
        count_pattern pattern e.listeners < e.max_per_pattern
        → extended.listeners ≡ insert added e.listeners
    unfolding on
    on-listeners room = ground (arith, room, sort_listeners-insert e.listeners added s.ordered)

    pub on-IsOrderly : IsOrderly later max (on later pattern listener options e).0
    unfolding on
    on-IsOrderly = elim (Bool-cases (leb e.max_per_pattern (count_pattern pattern e.listeners))) [
      | inl full ↦ rw full (IsOrderly-later now later max e le s)
      | inr free ↦ rw free (
          inserted-IsOrderly _ (sort_listeners-insert e.listeners added s.ordered) refl refl
            (ground (arith, free, s.limit)))
    ]

  -- A new listener is dispatched after all listeners of its priority and before those beyond; the
  -- others keep their order.
  pub on-appends :
      (now later max : ℕ) (pattern : String) (listener : P → Reply) (options : ListenerOptions P)
      (e : Emitter P)
      → now ≤ later
      → IsOrderly now max e
      → count_pattern pattern e.listeners < max
      → (on later pattern listener options e).0.listeners
        ≡ up_to (get_or_else options.priority e.default_priority) e.listeners
          ++ new_listener later pattern listener options e
            ∷ beyond (get_or_else options.priority e.default_priority) e.listeners
  on-appends now later max pattern listener options e le s room =
      on-listeners now later max pattern listener options e le s (omega (arith, room, s.limit))
      ∙ insert_newest (new_listener later pattern listener options e) e.listeners
          (Older-later now later e.listeners le s.older) s.ordered
