-- ===== src/FeatureFlag/Memory/Rollout.antt =====
-- packages/feature-flag/src/backends/memory.ts: flags whose rollout is raised.
use nexusts.Prelude.{
  ℕ, ◌≤◌, ◌≡◌, refl, sym, ap, ◌∙◌, Bool, true, false, Option, none, some, String, arith,
  if◌then◌else◌,
}
use nexusts.Prelude.JsMap
use nexusts.Prelude.JsMap.{JsMap}
use nexusts.FeatureFlag.Memory.{
  FlagContext, FlagDefinition, defined, definition_of, Flags, set_flag, target, is_off, rolled_out,
  decide, decide_found, is_enabled, listed,
}

abbrev pub with_rollout : ℕ → ℕ → FlagDefinition → FlagDefinition
with_rollout n d def = record def { rollout = some (record { numerator = n; denominator = d }) }

rolled_out-le :
    (name id : String) (enabled : Option Bool) (n m d : ℕ)
    → n ≤ m
    → is_off enabled ≡ false
    → rolled_out name id enabled (some (record { numerator = n; denominator = d })) ≡ true
    → rolled_out name id enabled (some (record { numerator = m; denominator = d })) ≡ true
unfolding rolled_out
rolled_out-le name id none n m d le on h = ground (arith, le, h)
rolled_out-le name id (some b) n m d le on h = ground (arith, le, h, on)

-- The tests before the rollout do not depend on it.
ladder :
    (denied allowed off x y : Bool)
    → (off ≡ false → x ≡ true → y ≡ true)
    → (if denied then false else if allowed then true else if off then false else x) ≡ true
    → (if denied then false else if allowed then true else if off then false else y) ≡ true
ladder true allowed off x y f h = absurd (cc)
ladder false true off x y f h = refl
ladder false false true x y f h = absurd (cc)
ladder false false false x y f h = f refl h

decide-le :
    (name id : String) (def : FlagDefinition) (n m d : ℕ)
    → n ≤ m
    → decide name id (with_rollout n d def) ≡ true
    → decide name id (with_rollout m d def) ≡ true
unfolding decide
decide-le name id def n m d le h =
    ladder (listed id def.denylist) (listed id def.allowlist) (is_off def.enabled) _ _
      (λ on r. rolled_out-le name id def.enabled n m d le on r) h

-- Raising the rollout of a flag takes it from nobody: a context that it was on for keeps it, whatever
-- the lists of the flag are, up to a rollout of one and beyond.
pub is_enabled-le :
    (name : String) (context : Option FlagContext) (def : FlagDefinition) (n m d : ℕ)
    (flags : Flags)
    → n ≤ m
    → is_enabled name context (set_flag name (defined (with_rollout n d def)) flags) ≡ true
    → is_enabled name context (set_flag name (defined (with_rollout m d def)) flags) ≡ true
unfolding is_enabled set_flag definition_of decide_found
is_enabled-le name context def n m d flags le h =
    let found_n : is_enabled name context (set_flag name (defined (with_rollout n d def)) flags)
        ≡ decide name (target context) (with_rollout n d def) =
      ap (decide_found name (target context))
        (JsMap.get-set_self name (with_rollout n d def) flags) in
    let found_m : is_enabled name context (set_flag name (defined (with_rollout m d def)) flags)
        ≡ decide name (target context) (with_rollout m d def) =
      ap (decide_found name (target context))
        (JsMap.get-set_self name (with_rollout m d def) flags) in
    found_m ∙ decide-le name (target context) def n m d le (sym found_n ∙ h)
