-- ===== src/Session/Memory/Kept.antt =====
-- packages/session/src/backends/memory.ts: properties of the stored sessions that every call keeps.
use nexusts.Prelude.{
  ℕ, ◌≡◌, refl, not, Option, none, some, List, [], ◌∷◌, String, Bool-cases, inl, inr, length,
  get_or_else, leb,
}
use nexusts.Prelude.JsMap
use nexusts.Prelude.JsMap.{JsMap}
use nexusts.Session.Records.{SessionRecord, UpdateSessionOptions, nonempty}
use nexusts.Session.Memory.{
  Storage, is_expired, new_record, oldest, delete_key, evict_if_full, create, touched, read_found,
  read, updated, update_found, update, destroy, destroy_many, gc, clear, Call, creating, reading,
  updating, destroying, destroying_many, collecting, clearing, writing, Edit, edited, write_found,
  write, perform, run, of_user,
}

abbrev pub NewIs : (String → SessionRecord → Type 0) → Call → Type 0
NewIs P (creating now random_id opts) =
    P (get_or_else opts.id random_id) (new_record now random_id opts)
NewIs P (reading now id) = Unit
NewIs P (updating now id opts) = Unit
NewIs P (destroying id) = Unit
NewIs P (destroying_many query) = Unit
NewIs P (collecting now) = Unit
NewIs P clearing = Unit
NewIs P (writing id edit) = (r : SessionRecord) → P id r → P id (edited edit r)

abbrev pub AllNew : (String → SessionRecord → Type 0) → List Call → Type 0
AllNew P [] = Unit
AllNew P (c ∷ cs) = NewIs P c × AllNew P cs

-- A property of the entries that a touch and an update do not change.
module _ (P : String → SessionRecord → Type 0)
    (touch_keeps : (now : ℕ) (id : String) (r : SessionRecord) → P id r → P id (touched now r))
    (update_keeps : (now : ℕ) (id : String) (opts : UpdateSessionOptions) (r : SessionRecord)
      → P id r
      → P id (updated now opts r)) where
  pub evict-Every :
      (s : Storage) → JsMap.Every P s.sessions → JsMap.Every P (evict_if_full s).sessions
  unfolding evict_if_full
  evict-Every s h = elim (Bool-cases (leb (length s.sessions) s.max_sessions)) [
    | inl e ↦ rw e h
    | inr e ↦ rw e (deleted (nonempty (oldest s.sessions)))
  ]
    where
      deleted : (k : Option String) → JsMap.Every P (delete_key k s).sessions
      deleted none = h
      deleted (some k) = JsMap.Every-delete P k s.sessions h

  read_found-Every :
      (now : ℕ) (id : String) (found : Option SessionRecord) (s : Storage)
      → JsMap.get id s.sessions ≡ found
      → JsMap.Every P s.sessions
      → JsMap.Every P (read_found now id found s).0.sessions
  unfolding is_expired read_found
  read_found-Every now id none s e h = h
  read_found-Every now id (some r) s e h = elim (Bool-cases (is_expired now r)) [
    | inl x ↦ rw x (JsMap.Every-delete P id s.sessions h)
    | inr x ↦ rw x (
        JsMap.Every-set P id (touched now r) s.sessions
          (touch_keeps now id r (JsMap.Every-get P id r s.sessions h e)) h)
  ]

  update_found-Every :
      (now : ℕ) (id : String) (opts : UpdateSessionOptions) (found : Option SessionRecord)
      (s : Storage)
      → JsMap.get id s.sessions ≡ found
      → JsMap.Every P s.sessions
      → JsMap.Every P (update_found now id opts found s).0.sessions
  unfolding is_expired update_found
  update_found-Every now id opts none s e h = h
  update_found-Every now id opts (some r) s e h = elim (Bool-cases (is_expired now r)) [
    | inl x ↦ rw x (JsMap.Every-delete P id s.sessions h)
    | inr x ↦ rw x (
        JsMap.Every-set P id (updated now opts r) s.sessions
          (update_keeps now id opts r (JsMap.Every-get P id r s.sessions h e)) h)
  ]

  write_found-Every :
      (id : String) (edit : Edit) (found : Option SessionRecord) (s : Storage)
      → JsMap.get id s.sessions ≡ found
      → ((r : SessionRecord) → P id r → P id (edited edit r))
      → JsMap.Every P s.sessions
      → JsMap.Every P (write_found id edit found s).sessions
  write_found-Every id edit none s e keeps h = h
  write_found-Every id edit (some r) s e keeps h =
      JsMap.Every-set P id (edited edit r) s.sessions
        (keeps r (JsMap.Every-get P id r s.sessions h e)) h

  perform-Every :
      (c : Call) (s : Storage)
      → NewIs P c
      → JsMap.Every P s.sessions
      → JsMap.Every P (perform c s).sessions
  unfolding perform create new_record read update destroy destroy_many gc clear write
  perform-Every (creating now random_id opts) s n h =
      evict-Every _ (JsMap.Every-set P _ (new_record now random_id opts) s.sessions n h)
  perform-Every (reading now id) s n h = read_found-Every now id (JsMap.get id s.sessions) s refl h
  perform-Every (updating now id opts) s n h =
      update_found-Every now id opts (JsMap.get id s.sessions) s refl h
  perform-Every (destroying id) s n h = JsMap.Every-delete P id s.sessions h
  perform-Every (destroying_many query) s n h =
      JsMap.Every-keep P (λ id r. not (of_user query.user_id r)) s.sessions h
  perform-Every (collecting now) s n h =
      JsMap.Every-keep P (λ id r. not (is_expired now r)) s.sessions h
  perform-Every clearing s n h = tt
  perform-Every (writing id edit) s n h =
      write_found-Every id edit (JsMap.get id s.sessions) s refl n h

  pub run-Every :
      (cs : List Call) (s : Storage)
      → AllNew P cs
      → JsMap.Every P s.sessions
      → JsMap.Every P (run cs s).sessions
  unfolding run
  run-Every [] s n h = h
  run-Every (c ∷ cs) s (n, ns) h = run-Every cs (perform c s) ns (perform-Every c s n h)
