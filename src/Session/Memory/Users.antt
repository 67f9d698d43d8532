-- ===== src/Session/Memory/Users.antt =====
-- packages/session/src/backends/memory.ts: the users of the stored sessions.
use nexusts.Prelude.{
  false, ap, ◌∙◌, ℕ, ◌≡◌, refl, not, Option, some, List, [], ◌∷◌, String, arith, length,
}
use nexusts.Prelude.JsMap
use nexusts.Prelude.JsMap.{JsMap}
use nexusts.Session.Records.{SessionRecord, UpdateSessionOptions, SessionQuery}
use nexusts.Session.Memory.{
  constructed, new_record, touched, patched, updated, of_user, destroy_many, Call, creating,
  reading, updating, destroying, destroying_many, collecting, clearing, writing, Edit, user_is,
  fields_are, edited, same_option, run,
}
use nexusts.Session.Memory.Kept.{AllNew, run-Every}

-- The session does not belong to the user.
abbrev pub IsNotOf : String → String → SessionRecord → Type 0
IsNotOf user id r = same_option r.user_id (some user) ≡ false

abbrev pub IsOther : String → Edit → Type 0
IsOther user (user_is name) = same_option name (some user) ≡ false
IsOther user (fields_are fields) = Unit

-- No caller writes the user to a record that it was given.
abbrev pub WritesOthers : String → List Call → Type 0
WritesOthers user [] = Unit
WritesOthers user (creating now random_id opts ∷ cs) = WritesOthers user cs
WritesOthers user (reading now id ∷ cs) = WritesOthers user cs
WritesOthers user (updating now id opts ∷ cs) = WritesOthers user cs
WritesOthers user (destroying id ∷ cs) = WritesOthers user cs
WritesOthers user (destroying_many query ∷ cs) = WritesOthers user cs
WritesOthers user (collecting now ∷ cs) = WritesOthers user cs
WritesOthers user (clearing ∷ cs) = WritesOthers user cs
WritesOthers user (writing id edit ∷ cs) = IsOther user edit × WritesOthers user cs

updated-user :
    (now : ℕ) (opts : UpdateSessionOptions) (r : SessionRecord)
    → (updated now opts r).user_id ≡ r.user_id
unfolding updated patched
updated-user now opts r = ground arith

updated-IsNotOf :
    (user : String) (now : ℕ) (id : String) (opts : UpdateSessionOptions) (r : SessionRecord)
    → IsNotOf user id r
    → IsNotOf user id (updated now opts r)
updated-IsNotOf user now id opts r h =
    ap (λ (name : Option String). same_option name (some user)) (updated-user now opts r) ∙ h

edited-IsNotOf :
    (user id : String) (edit : Edit)
    → IsOther user edit
    → (r : SessionRecord) → IsNotOf user id r
    → IsNotOf user id (edited edit r)
edited-IsNotOf user id (user_is name) other r h = other
edited-IsNotOf user id (fields_are fields) other r h = h

all_new : (user : String) (cs : List Call) → WritesOthers user cs → AllNew (IsNotOf user) cs
unfolding new_record
all_new user [] w = tt
all_new user (creating now random_id opts ∷ cs) w = (refl, all_new user cs w)
all_new user (reading now id ∷ cs) w = (tt, all_new user cs w)
all_new user (updating now id opts ∷ cs) w = (tt, all_new user cs w)
all_new user (destroying id ∷ cs) w = (tt, all_new user cs w)
all_new user (destroying_many query ∷ cs) w = (tt, all_new user cs w)
all_new user (collecting now ∷ cs) w = (tt, all_new user cs w)
all_new user (clearing ∷ cs) w = (tt, all_new user cs w)
all_new user (writing id edit ∷ cs) (other, w) =
    (edited-IsNotOf user id edit other, all_new user cs w)

none_of_user :
    (user : String) (m : JsMap SessionRecord)
    → JsMap.Every (IsNotOf user) m
    → (JsMap.keep (λ id r. not (of_user (some user) r)) m ≡ m)
      × (length (JsMap.keep (λ id r. of_user (some user) r) m) ≡ 0)
none_of_user user [] h = (refl, refl)
none_of_user user ((k, r) ∷ m) (a, h) = ground (arith, a, none_of_user user m h)

-- The users in the options of `create` and `update` are not stored: after any calls, whatever users
-- they gave, `destroyMany` for a user removes no session and reports none, unless a caller has
-- written that user to a record that it was given.
pub run-destroys_none :
    (cs : List Call) (user : String) (query : SessionQuery) (max : Option ℕ)
    → WritesOthers user cs
    → query.user_id ≡ some user
    → destroy_many query (run cs (constructed max)) ≡ (run cs (constructed max), 0)
unfolding destroy_many touched constructed
run-destroys_none cs user query max w e =
    let others : JsMap.Every (IsNotOf user) (run cs (constructed max)).sessions =
      run-Every (IsNotOf user) (λ now id r h. h) (updated-IsNotOf user) cs (constructed max)
        (all_new user cs w) tt in
    let (same, none_left) = none_of_user user (run cs (constructed max)).sessions others in
    rw (e, same, none_left) refl
