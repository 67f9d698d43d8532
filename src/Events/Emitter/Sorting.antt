-- ===== src/Events/Emitter/Sorting.antt =====
-- packages/events/src/emitter.ts: the order of the listeners.
use nexusts.Prelude.{
  ℕ, ◌≤◌, ◌<◌, ◌≡◌, refl, sym, ap, ◌∙◌, Bool, true, false, List, [], ◌∷◌, ◌++◌, ltb, leb, arith,
  filter, All, append_assoc, append-nil,
}
use nexusts.Events.Listener.{InternalListener}
use nexusts.Events.Emitter.{insert, sort_onto, sort_listeners, comes_after}

module _ {P : Type 0} where
  -- The listener may stand before all of the list.
  abbrev pub Before : InternalListener P → List (InternalListener P) → Type 0
  Before l [] = Unit
  Before l (x ∷ xs) = (comes_after l x ≡ false) × Before l xs

  abbrev pub IsSorted : List (InternalListener P) → Type 0
  IsSorted [] = Unit
  IsSorted (l ∷ ls) = Before l ls × IsSorted ls

  Before-trans :
      (k l : InternalListener P) (ls : List (InternalListener P))
      → comes_after k l ≡ false
      → Before l ls
      → Before k ls
  unfolding comes_after
  Before-trans k l [] h b = tt
  Before-trans k l (x ∷ xs) h (c, b) = (ground (arith, h, c), Before-trans k l xs h b)

  Before-insert :
      (k l : InternalListener P) (ls : List (InternalListener P))
      → comes_after k l ≡ false
      → Before k ls
      → Before k (insert l ls)
  unfolding insert
  Before-insert k l [] h b = (h, tt)
  Before-insert k l (x ∷ xs) h (c, b) = ground (arith, h, c, b, Before-insert k l xs h b)

  flip : (k l : InternalListener P) → comes_after k l ≡ true → comes_after l k ≡ false
  unfolding comes_after
  flip k l h = ground (arith, h)

  pub insert-IsSorted :
      (l : InternalListener P) (ls : List (InternalListener P))
      → IsSorted ls
      → IsSorted (insert l ls)
  unfolding insert
  insert-IsSorted l [] h = (tt, tt)
  insert-IsSorted l (x ∷ xs) (b, h) =
      ground
        (arith, flip x l, Before-trans l x xs, Before-insert x l xs, insert-IsSorted l xs h, b, h)

  sort_onto-IsSorted :
      (done ls : List (InternalListener P)) → IsSorted done → IsSorted (sort_onto done ls)
  unfolding sort_onto
  sort_onto-IsSorted done [] h = h
  sort_onto-IsSorted done (l ∷ ls) h =
      sort_onto-IsSorted (insert l done) ls (insert-IsSorted l done h)

  pub sort_listeners-IsSorted : (ls : List (InternalListener P)) → IsSorted (sort_listeners ls)
  unfolding sort_listeners
  sort_listeners-IsSorted ls = sort_onto-IsSorted [] ls tt

  -- Every listener of the list may stand before the listener.
  abbrev pub AllBefore : List (InternalListener P) → InternalListener P → Type 0
  AllBefore [] l = Unit
  AllBefore (x ∷ xs) l = (comes_after x l ≡ false) × AllBefore xs l

  insert_last :
      (l : InternalListener P) (ls : List (InternalListener P))
      → AllBefore ls l
      → insert l ls ≡ ls ++ l ∷ []
  unfolding insert
  insert_last l [] h = refl
  insert_last l (x ∷ xs) (a, h) = ground (arith, a, insert_last l xs h)

  abbrev LinedUp : List (InternalListener P) → List (InternalListener P) → Type 0
  LinedUp done [] = Unit
  LinedUp done (x ∷ xs) = AllBefore done x × LinedUp done xs

  AllBefore-append :
      (done : List (InternalListener P)) (k x : InternalListener P)
      → AllBefore done x
      → comes_after k x ≡ false
      → AllBefore (done ++ k ∷ []) x
  AllBefore-append [] k x h c = (c, tt)
  AllBefore-append (d ∷ done) k x (a, h) c = (a, AllBefore-append done k x h c)

  LinedUp-append :
      (done : List (InternalListener P)) (k : InternalListener P) (ls : List (InternalListener P))
      → LinedUp done ls
      → Before k ls
      → LinedUp (done ++ k ∷ []) ls
  LinedUp-append done k [] h b = tt
  LinedUp-append done k (x ∷ xs) (a, h) (c, b) =
      (AllBefore-append done k x a c, LinedUp-append done k xs h b)

  -- A list in order is left as it is, and what comes after it is sorted in.
  sort_onto-sorted :
      (done ls : List (InternalListener P)) (l : InternalListener P)
      → LinedUp done ls
      → IsSorted ls
      → sort_onto done (ls ++ l ∷ []) ≡ insert l (done ++ ls)
  unfolding sort_onto
  sort_onto-sorted done [] l h s = ap (insert l) (sym (append-nil done))
  sort_onto-sorted done (x ∷ xs) l (a, h) (b, s) =
      ap (λ (d : List (InternalListener P)). sort_onto d (xs ++ l ∷ [])) (insert_last x done a)
      ∙ sort_onto-sorted (done ++ x ∷ []) xs l (LinedUp-append done x xs h b) s
      ∙ ap (insert l) (append_assoc done (x ∷ []) xs)

  LinedUp-nil : (ls : List (InternalListener P)) → LinedUp [] ls
  LinedUp-nil [] = tt
  LinedUp-nil (l ∷ ls) = (tt, LinedUp-nil ls)

  pub sort_listeners-insert :
      (ls : List (InternalListener P)) (l : InternalListener P)
      → IsSorted ls
      → sort_listeners (ls ++ l ∷ []) ≡ insert l ls
  unfolding sort_listeners
  sort_listeners-insert ls l s = sort_onto-sorted [] ls l (LinedUp-nil ls) s

  Before-filter :
      (p : InternalListener P → Bool) (k : InternalListener P) (ls : List (InternalListener P))
      → Before k ls
      → Before k (filter p ls)
  Before-filter p k [] b = tt
  Before-filter p k (x ∷ xs) (c, b) = ground (arith, c, Before-filter p k xs b)

  pub IsSorted-filter :
      (p : InternalListener P → Bool) (ls : List (InternalListener P))
      → IsSorted ls
      → IsSorted (filter p ls)
  IsSorted-filter p [] h = tt
  IsSorted-filter p (x ∷ xs) (b, h) = ground (arith, Before-filter p x xs b, IsSorted-filter p xs h)

  -- The listeners up to a priority, and those after it.
  abbrev pub up_to : ℕ → List (InternalListener P) → List (InternalListener P)
  up_to p ls = filter (λ l. leb l.priority p) ls

  abbrev pub beyond : ℕ → List (InternalListener P) → List (InternalListener P)
  beyond p ls = filter (λ l. ltb p l.priority) ls

  abbrev pub Older : ℕ → InternalListener P → Type 0
  Older now l = l.created_at ≤ now

  none_up_to :
      (l x : InternalListener P) (xs : List (InternalListener P))
      → l.priority < x.priority
      → Before x xs
      → (up_to l.priority xs ≡ []) × (beyond l.priority xs ≡ xs)
  unfolding comes_after
  none_up_to l x [] lt b = (refl, refl)
  none_up_to l x (y ∷ ys) lt (c, b) = ground (arith, lt, c, none_up_to l x ys lt b)

  -- The newest listener goes behind all of its priority.
  pub insert_newest :
      (l : InternalListener P) (ls : List (InternalListener P))
      → All (Older l.created_at) ls
      → IsSorted ls
      → insert l ls ≡ up_to l.priority ls ++ l ∷ beyond l.priority ls
  unfolding insert comes_after
  insert_newest l [] older s = refl
  insert_newest l (x ∷ xs) (o, older) (b, s) =
      ground (arith, o, none_up_to l x xs, b, insert_newest l xs older s)
