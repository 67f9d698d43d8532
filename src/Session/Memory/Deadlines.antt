-- ===== src/Session/Memory/Deadlines.antt =====
-- packages/session/src/backends/memory.ts: the absolute limit of a session.
use nexusts.Prelude.{
  eq_iff, ℕ, ◌+◌, ◌*◌, ◌≤◌, ◌<◌, ◌≡◌, ◌≢◌, refl, ◌∙◌, false, Option, none, some, List, [], ◌∷◌,
  String, arith, get_or_else,
}
use nexusts.Prelude.JsMap
use nexusts.Prelude.JsMap.{JsMap}
use nexusts.Session.Records.{SessionRecord, CreateSessionOptions, UpdateSessionOptions}
use nexusts.Session.Memory.{
  Storage, is_expired, new_record, create, touched, patched, updated, read_found, read, Call,
  creating, reading, updating, destroying, destroying_many, collecting, clearing, writing, Edit,
  user_is, fields_are, edited, run,
}
use nexusts.Session.Memory.Kept.{AllNew, run-Every, evict-Every}

-- The session has the limit, if it has the id.
abbrev pub IsLimited : String → ℕ → String → SessionRecord → Type 0
IsLimited id time k r = k ≡ id → r.absolute_expires_at ≡ some time

-- No call of the list creates a session with the id.
abbrev pub CreatesOthers : String → List Call → Type 0
CreatesOthers id [] = Unit
CreatesOthers id (creating now random_id opts ∷ cs) =
    (get_or_else opts.id random_id ≢ id) × CreatesOthers id cs
CreatesOthers id (reading now i ∷ cs) = CreatesOthers id cs
CreatesOthers id (updating now i opts ∷ cs) = CreatesOthers id cs
CreatesOthers id (destroying i ∷ cs) = CreatesOthers id cs
CreatesOthers id (destroying_many query ∷ cs) = CreatesOthers id cs
CreatesOthers id (collecting now ∷ cs) = CreatesOthers id cs
CreatesOthers id (clearing ∷ cs) = CreatesOthers id cs
CreatesOthers id (writing i edit ∷ cs) = CreatesOthers id cs

updated-absolute :
    (now : ℕ) (opts : UpdateSessionOptions) (r : SessionRecord)
    → (updated now opts r).absolute_expires_at ≡ r.absolute_expires_at
unfolding updated patched
updated-absolute now opts r = ground arith

edited-absolute :
    (edit : Edit) (r : SessionRecord) → (edited edit r).absolute_expires_at ≡ r.absolute_expires_at
edited-absolute (user_is user) r = refl
edited-absolute (fields_are fields) r = refl

others_new :
    (id : String) (time : ℕ) (cs : List Call) → CreatesOthers id cs → AllNew (IsLimited id time) cs
others_new id time [] h = tt
others_new id time (creating now random_id opts ∷ cs) (ne, h) =
    (λ e. absurd (ne e), others_new id time cs h)
others_new id time (reading now i ∷ cs) h = (tt, others_new id time cs h)
others_new id time (updating now i opts ∷ cs) h = (tt, others_new id time cs h)
others_new id time (destroying i ∷ cs) h = (tt, others_new id time cs h)
others_new id time (destroying_many query ∷ cs) h = (tt, others_new id time cs h)
others_new id time (collecting now ∷ cs) h = (tt, others_new id time cs h)
others_new id time (clearing ∷ cs) h = (tt, others_new id time cs h)
others_new id time (writing i edit ∷ cs) h =
    (λ r limited e. edited-absolute edit r ∙ limited e, others_new id time cs h)

absent-Every :
    (id : String) (time : ℕ) (m : JsMap SessionRecord)
    → JsMap.has id m ≡ false
    → JsMap.Every (IsLimited id time) m
absent-Every id time [] h = tt
absent-Every id time ((k, r) ∷ m) h =
    (λ e. absurd (ground (arith, eq_iff k id, e, h)), absent-Every id time m (ground (arith, h)))

limited_read :
    (now time : ℕ) (id : String) (found : Option SessionRecord) (s : Storage)
    → JsMap.get id s.sessions ≡ found
    → JsMap.Every (IsLimited id time) s.sessions
    → time ≤ now
    → (read_found now id found s).1 ≡ none
unfolding read_found is_expired
limited_read now time id none s e h le = refl
limited_read now time id (some r) s e h le =
    let limit : r.absolute_expires_at ≡ some time =
      JsMap.Every-get (IsLimited id time) id r s.sessions h e refl in
    ground (arith, limit, le)

created-IsLimited :
    (now seconds : ℕ) (random_id : String) (opts : CreateSessionOptions)
    → opts.absolute_ttl_seconds ≡ some seconds
    → 0 < seconds
    → (new_record now random_id opts).absolute_expires_at ≡ some (now + seconds * 1000)
unfolding new_record
created-IsLimited now seconds random_id opts e pos = rw e (ground (arith, pos))

-- A session that was created with an absolute limit is never read at or after it, whatever calls
-- come in between, updates that extend it included; no other call creates a session with its id, and
-- the id was free.
pub run-limited :
    (now later seconds : ℕ) (random_id : String) (opts : CreateSessionOptions) (s : Storage)
    (cs : List Call)
    → opts.absolute_ttl_seconds ≡ some seconds
    → 0 < seconds
    → JsMap.has (get_or_else opts.id random_id) s.sessions ≡ false
    → CreatesOthers (get_or_else opts.id random_id) cs
    → now + seconds * 1000 ≤ later
    → (read later (get_or_else opts.id random_id) (run cs (create now random_id opts s).0)).1 ≡ none
unfolding read create new_record touched
run-limited now later seconds random_id opts s cs e pos free others le =
    let id : String = get_or_else opts.id random_id in
    let time : ℕ = now + seconds * 1000 in
    let made : JsMap.Every (IsLimited id time) (create now random_id opts s).0.sessions =
      evict-Every (IsLimited id time) (λ at k r h. h)
        (λ at k o r h q. updated-absolute at o r ∙ h q)
        (record s { sessions = JsMap.set id (new_record now random_id opts) s.sessions })
        (JsMap.Every-set (IsLimited id time) id (new_record now random_id opts) s.sessions
          (λ q. created-IsLimited now seconds random_id opts e pos)
          (absent-Every id time s.sessions free)) in
    limited_read later time id (JsMap.get id (run cs (create now random_id opts s).0).sessions)
      (run cs (create now random_id opts s).0) refl
      (run-Every (IsLimited id time) (λ at k r h. h) (λ at k o r h q. updated-absolute at o r ∙ h q)
        cs (create now random_id opts s).0 (others_new id time cs others) made)
      le
