-- ===== src/FeatureFlag/Memory.antt =====
-- packages/feature-flag/src/types.ts and backends/memory.ts. A rollout is a fraction of two natural
-- numbers, and the quotient of the hash is exact where the source rounds it to a double. The
-- characters of a hashed text are of one code unit.
mod Rollout
mod Tests
use nexusts.Prelude.{
  ℕ, ◌+◌, ◌*◌, ◌%◌, Bool, true, false, not, ◌&&◌, ◌||◌, Option, none, some, List, [], ◌∷◌, String,
  str_eq, ltb, if◌then◌else◌, get_or_else,
}
use Prim.Native.Nat.{bit_xor}
use Prim.Native.String.{◌++◌ as join}
use Prim.Native.Char.{code}
use nexusts.Prelude.JsMap
use nexusts.Prelude.JsMap.{JsMap}

pub record Fraction : Type 0 where
  pub numerator : ℕ
  pub denominator : ℕ

pub record FlagContext : Type 0 where
  pub user_id : Option String
  pub tenant_id : Option String
  pub key : Option String

pub record FlagDefinition : Type 0 where
  pub enabled : Option Bool
  pub rollout : Option Fraction
  pub allowlist : Option (List String)
  pub denylist : Option (List String)

pub data FlagValue : Type 0 where
  on_or_off : Bool → FlagValue
  defined : FlagDefinition → FlagValue

-- A step on 32 bits, as a natural number: `>>> 0` of the source's integer.
pub hash_step : ℕ → ℕ → ℕ
hash_step h c = bit_xor (h * 33 % 4294967296) c % 4294967296

pub hash_from : ℕ → String → ℕ
unfolding hash_step
hash_from h String.[] = h
hash_from h (String.◌∷◌ c s) = hash_from (hash_step h (code c)) s

pub hash : String → ℕ
unfolding hash_from
hash s = hash_from 5381 s

pub definition_of : FlagValue → FlagDefinition
definition_of (on_or_off b) = record {
  enabled = some b;
  rollout = none;
  allowlist = none;
  denylist = none;
}
definition_of (defined def) = def

abbrev pub Flags : Type 0
Flags = JsMap FlagDefinition

pub set_all : List (String × FlagValue) → Flags → Flags
unfolding definition_of
set_all [] flags = flags
set_all ((name, value) ∷ initial) flags =
    set_all initial (JsMap.set name (definition_of value) flags)

pub constructed : List (String × FlagValue) → Flags
unfolding set_all
constructed initial = set_all initial []

pub set_flag : String → FlagValue → Flags → Flags
unfolding definition_of
set_flag name value flags = JsMap.set name (definition_of value) flags

pub get_flag : String → Flags → Option FlagDefinition
get_flag name flags = JsMap.get name flags

abbrev pub first_of : Option String → String → String
first_of none other = other
first_of (some s) other = s

pub target : Option FlagContext → String
target none = ""
target (some context) =
    first_of context.user_id (first_of context.tenant_id (first_of context.key ""))

pub includes : String → List String → Bool
includes id [] = false
includes id (other ∷ ids) = str_eq other id || includes id ids

abbrev pub listed : String → Option (List String) → Bool
unfolding includes
listed id none = false
listed id (some ids) = not (str_eq id "") && includes id ids

abbrev pub is_off : Option Bool → Bool
is_off none = false
is_off (some b) = not b

pub rolled_out : String → String → Option Bool → Option Fraction → Bool
unfolding hash
rolled_out name id enabled none = get_or_else enabled true
rolled_out name id enabled (some r) =
    if not (ltb r.numerator r.denominator)
    then get_or_else enabled true
    else if str_eq id ""
    then ltb 0 r.numerator
    else ltb (hash (join name (join ":" id)) * r.denominator) (r.numerator * 4294967295)

pub decide : String → String → FlagDefinition → Bool
unfolding includes rolled_out
decide name id def =
    if listed id def.denylist
    then false
    else if listed id def.allowlist
    then true
    else if is_off def.enabled
    then false
    else rolled_out name id def.enabled def.rollout

pub decide_found : String → String → Option FlagDefinition → Bool
unfolding decide
decide_found name id none = false
decide_found name id (some def) = decide name id def

pub is_enabled : String → Option FlagContext → Flags → Bool
unfolding decide_found target
is_enabled name context flags = decide_found name (target context) (JsMap.get name flags)
