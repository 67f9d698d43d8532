-- ===== src/Session/Memory/Eviction.antt =====
-- packages/session/src/backends/memory.ts: the limit on the number of sessions, and which session a
-- new one evicts.
use nexusts.Prelude.{
  ℕ, suc, ◌+◌, ◌≤◌, ◌≡◌, refl, sym, ap, subst, ◌∙◌, Bool, true, false, not, Option, none, some,
  List, [], ◌∷◌, String, arith, Bool-cases, inl, inr, length, str_eq, eq_iff, eq_refl, get_or_else,
  leb, is_some,
}
use nexusts.Prelude.JsMap
use nexusts.Prelude.JsMap.{JsMap}
use nexusts.Session.Records.{SessionRecord, CreateSessionOptions, UpdateSessionOptions}
use nexusts.Session.Memory.{
  Storage, is_expired, new_record, evict_if_full, create, touched, read_found, read, update_found,
  update, updated, destroy, destroy_many, gc, clear, of_user, Call, creating, reading, updating,
  destroying, destroying_many, collecting, clearing, writing, Edit, edited, write_found, write,
  perform, run,
}

-- No key occurs twice, none is empty, and the limit holds.
pub record IsBounded (limit : ℕ) (s : Storage) : Type 0 where
  pub distinct : JsMap.Distinct s.sessions
  pub named : JsMap.get "" s.sessions ≡ none
  pub fits : length s.sessions ≤ limit
  pub same : s.max_sessions ≡ limit

abbrev pub IsNamed : Call → Type 0
IsNamed (creating now random_id opts) = str_eq (get_or_else opts.id random_id) "" ≡ false
IsNamed (reading now id) = Unit
IsNamed (updating now id opts) = Unit
IsNamed (destroying id) = Unit
IsNamed (destroying_many query) = Unit
IsNamed (collecting now) = Unit
IsNamed clearing = Unit
IsNamed (writing id edit) = Unit

abbrev pub AllNamed : List Call → Type 0
AllNamed [] = Unit
AllNamed (c ∷ cs) = IsNamed c × AllNamed cs

-- A map that is one too large loses its first entry.
first_evicted :
    (limit : ℕ) (m : JsMap SessionRecord)
    → JsMap.Distinct m
    → JsMap.get "" m ≡ none
    → length m ≤ limit + 1
    → IsBounded limit (evict_if_full (record { sessions = m; max_sessions = limit }))
unfolding evict_if_full
first_evicted limit [] d n le =
    let fit : leb (length {A = String × SessionRecord} []) limit ≡ true = ground arith in
    rw fit (record { distinct = tt; named = refl; fits = omega arith; same = refl })
first_evicted limit ((k, r) ∷ m) (new, d) n le = elim (Bool-cases (leb (suc (length m)) limit)) [
  | inl fit ↦
      rw fit (record { distinct = (new, d); named = n; fits = ground (arith, fit); same = refl })
  | inr full ↦
      let name : str_eq k "" ≡ false = ground (arith, n) in
      let dropped : JsMap.delete k ((k, r) ∷ m) ≡ m =
        ground (arith, eq_refl k, JsMap.delete_absent k m, new) in
      rw (full, name, dropped)
        (record { distinct = d; named = ground (arith, n); fits = ground (arith, le); same = refl })
]

evicted :
    (limit : ℕ) (s : Storage)
    → JsMap.Distinct s.sessions
    → JsMap.get "" s.sessions ≡ none
    → length s.sessions ≤ limit + 1
    → s.max_sessions ≡ limit
    → IsBounded limit (evict_if_full s)
evicted limit s d n le same =
    subst
      (λ (max : ℕ).
        IsBounded limit (evict_if_full (record { sessions = s.sessions; max_sessions = max })))
      (sym same) (first_evicted limit s.sessions d n le)

deleted-IsBounded :
    (limit : ℕ) (id : String) (s : Storage)
    → IsBounded limit s
    → IsBounded limit (record s { sessions = JsMap.delete id s.sessions })
deleted-IsBounded limit id s b = record {
  distinct = JsMap.Distinct-delete id s.sessions b.distinct;
  named = ground (arith, b.named, JsMap.get-delete id "" s.sessions);
  fits = omega (arith, JsMap.length-delete-le id s.sessions, b.fits);
  same = b.same;
}

written-IsBounded :
    (limit : ℕ) (id : String) (r x : SessionRecord) (s : Storage)
    → JsMap.get id s.sessions ≡ some x
    → IsBounded limit s
    → IsBounded limit (record s { sessions = JsMap.set id r s.sessions })
written-IsBounded limit id r x s e b = record {
  distinct = JsMap.Distinct-set id r s.sessions b.distinct;
  named = ground (
    arith,
    b.named,
    e,
    JsMap.get-set id "" r s.sessions,
    eq_iff id "",
    ap (λ (k : String). JsMap.get k s.sessions),
  );
  fits = ground (arith, b.fits, e, JsMap.length-set id r s.sessions);
  same = b.same;
}

kept-IsBounded :
    (limit : ℕ) (p : String → SessionRecord → Bool) (s : Storage)
    → IsBounded limit s
    → IsBounded limit (record s { sessions = JsMap.keep p s.sessions })
kept-IsBounded limit p s b = record {
  distinct = JsMap.Distinct-keep p s.sessions b.distinct;
  named = JsMap.get-keep p "" s.sessions b.distinct ∙ ground (arith, b.named);
  fits = omega (arith, JsMap.length-keep-le p s.sessions, b.fits);
  same = b.same;
}

read_found-IsBounded :
    (limit now : ℕ) (id : String) (found : Option SessionRecord) (s : Storage)
    → JsMap.get id s.sessions ≡ found
    → IsBounded limit s
    → IsBounded limit (read_found now id found s).0
unfolding read_found
read_found-IsBounded limit now id none s e b = b
read_found-IsBounded limit now id (some r) s e b = elim (Bool-cases (is_expired now r)) [
  | inl x ↦ rw x (deleted-IsBounded limit id s b)
  | inr x ↦ rw x (written-IsBounded limit id (touched now r) r s e b)
]

update_found-IsBounded :
    (limit now : ℕ) (id : String) (opts : UpdateSessionOptions) (found : Option SessionRecord)
    (s : Storage)
    → JsMap.get id s.sessions ≡ found
    → IsBounded limit s
    → IsBounded limit (update_found now id opts found s).0
unfolding update_found
update_found-IsBounded limit now id opts none s e b = b
update_found-IsBounded limit now id opts (some r) s e b = elim (Bool-cases (is_expired now r)) [
  | inl x ↦ rw x (deleted-IsBounded limit id s b)
  | inr x ↦ rw x (written-IsBounded limit id (updated now opts r) r s e b)
]

write_found-IsBounded :
    (limit : ℕ) (id : String) (edit : Edit) (found : Option SessionRecord) (s : Storage)
    → JsMap.get id s.sessions ≡ found
    → IsBounded limit s
    → IsBounded limit (write_found id edit found s)
write_found-IsBounded limit id edit none s e b = b
write_found-IsBounded limit id edit (some r) s e b =
    written-IsBounded limit id (edited edit r) r s e b

perform-IsBounded :
    (limit : ℕ) (c : Call) (s : Storage)
    → IsNamed c
    → IsBounded limit s
    → IsBounded limit (perform c s)
unfolding perform create new_record read update destroy destroy_many gc clear write
perform-IsBounded limit (creating now random_id opts) s named b =
    let id : String = get_or_else opts.id random_id in
    evicted limit (record s { sessions = JsMap.set id (new_record now random_id opts) s.sessions })
      (JsMap.Distinct-set id (new_record now random_id opts) s.sessions b.distinct)
      (JsMap.get-set id "" (new_record now random_id opts) s.sessions ∙ rw named b.named)
      (ground (arith, b.fits, JsMap.length-set id (new_record now random_id opts) s.sessions))
      b.same
perform-IsBounded limit (reading now id) s named b =
    read_found-IsBounded limit now id (JsMap.get id s.sessions) s refl b
perform-IsBounded limit (updating now id opts) s named b =
    update_found-IsBounded limit now id opts (JsMap.get id s.sessions) s refl b
perform-IsBounded limit (destroying id) s named b = deleted-IsBounded limit id s b
perform-IsBounded limit (destroying_many query) s named b =
    kept-IsBounded limit (λ id r. not (of_user query.user_id r)) s b
perform-IsBounded limit (collecting now) s named b =
    kept-IsBounded limit (λ id r. not (is_expired now r)) s b
perform-IsBounded limit clearing s named b = record {
  distinct = tt;
  named = refl;
  fits = omega arith;
  same = b.same;
}
perform-IsBounded limit (writing id edit) s named b =
    write_found-IsBounded limit id edit (JsMap.get id s.sessions) s refl b

-- Any calls keep the number of sessions within the limit, each id once, where no session is created
-- with an empty id.
pub run-IsBounded :
    (limit : ℕ) (cs : List Call) (s : Storage)
    → AllNamed cs
    → IsBounded limit s
    → IsBounded limit (run cs s)
unfolding run
run-IsBounded limit [] s named b = b
run-IsBounded limit (c ∷ cs) s (named, more) b =
    run-IsBounded limit cs (perform c s) more (perform-IsBounded limit c s named b)

first_gone :
    (k id : String) (r x : SessionRecord) (m : JsMap SessionRecord)
    → JsMap.get "" ((k, r) ∷ m) ≡ none
    → JsMap.has id ((k, r) ∷ m) ≡ false
    → JsMap.has k
        (evict_if_full (record {
          sessions = JsMap.set id x ((k, r) ∷ m);
          max_sessions = suc (length m);
        })).sessions
      ≡ false
unfolding evict_if_full
first_gone k id r x m n new =
    let other : str_eq k id ≡ false = ground (arith, new) in
    let name : str_eq k "" ≡ false = ground (arith, n) in
    let fresh : JsMap.has id m ≡ false = ground (arith, new, other) in
    let full : leb (suc (length (JsMap.set id x m))) (suc (length m)) ≡ false =
      ground (arith, fresh, JsMap.length-set id x m) in
    rw (other, full, name, eq_refl k) (ap is_some (JsMap.get-delete_self k (JsMap.set id x m)))

-- The victim of a new session in a full store is the first one that was created, although it has
-- just been read: a read does not move a session to the end.
pub create-evicts_touched :
    (now later : ℕ) (random_id k : String) (opts : CreateSessionOptions) (r : SessionRecord)
    (m : JsMap SessionRecord) (s : Storage)
    → s.sessions ≡ (k, r) ∷ m
    → IsBounded (suc (length m)) s
    → is_expired now r ≡ false
    → JsMap.has (get_or_else opts.id random_id) s.sessions ≡ false
    → ((read now k s).1 ≡ some (touched now r))
      × (JsMap.has k (create later random_id opts (read now k s).0).0.sessions ≡ false)
unfolding read read_found create new_record
create-evicts_touched now later random_id k opts r m s e b live new =
    let named : JsMap.get "" ((k, r) ∷ m) ≡ none =
      subst (λ (t : JsMap SessionRecord). JsMap.get "" t ≡ none) e b.named in
    let id : String = get_or_else opts.id random_id in
    let fresh : JsMap.has id ((k, r) ∷ m) ≡ false =
      subst (λ (t : JsMap SessionRecord). JsMap.has id t ≡ false) e new in
    rw (e, eq_refl k, live, eq_refl k, b.same)
      (
        refl,
        first_gone k id (touched now r) (new_record later random_id opts) m (ground (arith, named))
            (ground (arith, fresh)),
      )
