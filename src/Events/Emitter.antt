-- ===== src/Events/Emitter.antt =====
-- packages/events/src/emitter.ts: the emitter. `told` is the log of what its own listeners are told.
-- An emission is cut at each `await`: `meanwhile` holds, for each listener that is called, the other
-- operations that run before the emission goes on.
pub mod Ids
pub mod Sorting
pub mod Runs
use Prim.Native.String.{◌++◌ as join}
use nexusts.Prelude.{
  ℕ, ◌+◌, ◌-◌, Bool, true, false, not, ◌||◌, Option, none, some, List, [], ◌∷◌, ◌++◌, map, String,
  str_eq, ltb, leb, ◌==◌, if◌then◌else◌, length, filter, get_or_else,
}
use nexusts.Prelude.JsSet
use nexusts.Prelude.JsSet.{JsSet}
use nexusts.Prelude.Decimal.{decimal}
use nexusts.Events.Pattern.{compile_pattern, matches_regex}
use nexusts.Events.Listener.{
  Reply, returns, throws, resolves_later, rejects_later, GuardAnswer, passes, stops, fails,
  InternalListener, ListenerOptions, EmitterEvent, registered, removed, fired, failed, skipped,
  ListenerError, EmitResult, EmitOutcome, resolved, rejected,
}

pub record Emitter (P : Type 0) : Type 0 where
  pub listeners : List (InternalListener P)
  pub told : List EmitterEvent
  pub max_per_pattern : ℕ
  pub throw_on_error : Bool
  pub default_priority : ℕ
  pub next_id : ℕ

unfoldable pub id_of : ℕ → String
unfolding decimal
id_of n = join "evt-" (decimal n)

abbrev pub lets_pass : GuardAnswer → Bool
lets_pass passes = true
lets_pass stops = false
lets_pass fails = false

abbrev pub add_ids : List String → JsSet → JsSet
add_ids [] s = s
add_ids (i ∷ more) s = add_ids more (JsSet.add i s)

-- The operations that may run while an emission waits. `cleanup` is the end of another one.
pub data Op (P : Type 0) : Type 0 where
  subscribe : ℕ → String → (P → Reply) → ListenerOptions P → Op P
  unsubscribe : String → Op P
  clear : Op P
  cleanup : List (InternalListener P) → Op P

module _ {P : Type 0} where
  unfoldable pub constructed : Option ℕ → Option Bool → Option ℕ → Emitter P
  constructed max throw priority = record {
    listeners = [];
    told = [];
    max_per_pattern = get_or_else max 10;
    throw_on_error = get_or_else throw false;
    default_priority = get_or_else priority 5;
    next_id = 1;
  }

  abbrev pub tell : EmitterEvent → Emitter P → Emitter P
  tell event e = record e { told = e.told ++ event ∷ [] }

  -- Whether the comparator of the sort puts the first listener after the second.
  unfoldable pub comes_after : InternalListener P → InternalListener P → Bool
  comes_after a b =
      if a.priority == b.priority then ltb b.created_at a.created_at else ltb b.priority a.priority

  -- `sort` is stable: a listener goes behind all that it does not come before.
  unfoldable pub insert : InternalListener P → List (InternalListener P) → List (InternalListener P)
  unfolding comes_after
  insert l [] = l ∷ []
  insert l (x ∷ xs) = if comes_after x l then l ∷ x ∷ xs else x ∷ insert l xs

  unfoldable pub sort_onto :
      List (InternalListener P) → List (InternalListener P) → List (InternalListener P)
  unfolding insert
  sort_onto done [] = done
  sort_onto done (x ∷ xs) = sort_onto (insert x done) xs

  unfoldable pub sort_listeners : List (InternalListener P) → List (InternalListener P)
  unfolding sort_onto
  sort_listeners ls = sort_onto [] ls

  abbrev pub has_pattern : String → InternalListener P → Bool
  has_pattern pattern l = str_eq l.pattern pattern

  abbrev pub new_listener :
      ℕ → String → (P → Reply) → ListenerOptions P → Emitter P → InternalListener P
  new_listener now pattern listener options e = record {
    id = id_of e.next_id;
    pattern = pattern;
    regex = compile_pattern pattern;
    priority = get_or_else options.priority e.default_priority;
    guard = options.guard;
    once = get_or_else options.once false;
    listener = listener;
    created_at = now;
  }

  -- The id of the new listener, or `none` where the call throws.
  unfoldable pub on :
      ℕ → String → (P → Reply) → ListenerOptions P → Emitter P → Emitter P × Option String
  unfolding id_of sort_listeners
  on now pattern listener options e =
      if leb e.max_per_pattern (length (filter (has_pattern pattern) e.listeners))
      then (e, none)
      else (
        tell (registered (id_of e.next_id) pattern) (record e {
          listeners =
              sort_listeners (e.listeners ++ new_listener now pattern listener options e ∷ []);
          next_id = e.next_id + 1;
        }),
        some (id_of e.next_id),
      )

  unfoldable pub once :
      ℕ → String → (P → Reply) → ListenerOptions P → Emitter P → Emitter P × Option String
  unfolding on
  once now pattern listener options e =
      on now pattern listener (record options { once = some true }) e

  unfoldable pub listener_count : Option String → Emitter P → ℕ
  listener_count none e = length e.listeners
  listener_count (some pattern) e = length (filter (has_pattern pattern) e.listeners)

  abbrev pub is_called : String → InternalListener P → Bool
  is_called key l = str_eq l.id key || str_eq l.pattern key

  abbrev pub removals : List (InternalListener P) → List EmitterEvent
  removals [] = []
  removals (l ∷ ls) = removed l.id ∷ removals ls

  unfoldable pub off : String → Emitter P → Emitter P × ℕ
  off key e =
      let kept = filter (λ l. not (is_called key l)) e.listeners in
      (
        record e {
          listeners = kept;
          told = e.told ++ removals (filter (is_called key) e.listeners);
        },
        length e.listeners - length kept,
      )

  unfoldable pub remove_all_listeners : Emitter P → Emitter P
  remove_all_listeners e = record e { listeners = []; told = e.told ++ removals e.listeners }

  abbrev pub matches : String → InternalListener P → Bool
  matches name l = matches_regex l.regex l.pattern name

  unfoldable pub matching_listeners : String → Emitter P → List (InternalListener P)
  matching_listeners name e = filter (matches name) e.listeners

  abbrev pub guard_answer : P → Option (P → GuardAnswer) → GuardAnswer
  guard_answer payload none = passes
  guard_answer payload (some guard) = guard payload

  abbrev pub is_eligible : P → InternalListener P → Bool
  is_eligible payload l = lets_pass (guard_answer payload l.guard)

  -- The loop over the guards: the listeners to call, and what is told.
  unfoldable pub run_guards :
      P → List (InternalListener P) → List (InternalListener P) × List EmitterEvent
  run_guards payload [] = ([], [])
  run_guards payload (l ∷ ls) =
      let (eligible, events) = run_guards payload ls in
      if is_eligible payload l
      then (l ∷ eligible, events)
      else (eligible, skipped l.id l.pattern ∷ events)

  abbrev pub without : JsSet → List (InternalListener P) → List (InternalListener P)
  without ids ls = filter (λ l. not (JsSet.has l.id ids)) ls

  abbrev pub ids_of : List (InternalListener P) → List String
  ids_of [] = []
  ids_of (l ∷ ls) = l.id ∷ ids_of ls

  -- `if (toRemove.length > 0) …`, with the set of their ids.
  unfoldable pub remove_called : List (InternalListener P) → Emitter P → Emitter P
  remove_called [] e = e
  remove_called (l ∷ ls) e = record e {
    listeners = without (add_ids (ids_of (l ∷ ls)) []) e.listeners;
  }
