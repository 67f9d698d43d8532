-- ===== src/FeatureFlag/Memory/Tests.antt =====
-- packages/feature-flag/src/backends/memory.ts: flags of small stores.
use nexusts.Prelude.{◌≡◌, refl, true, false, none, some, [], ◌∷◌, arith}
use nexusts.FeatureFlag.Memory.{
  FlagContext, FlagDefinition, on_or_off, defined, constructed, set_flag, hash, is_enabled,
}
use nexusts.FeatureFlag.Memory.Rollout.{with_rollout, is_enabled-le}

abbrev bare : FlagDefinition
bare = record { enabled = none; rollout = none; allowlist = none; denylist = none }

abbrev u1 : FlagContext
u1 = record { user_id = some "u1"; tenant_id = none; key = none }

-- A flag that does not say whether it is on is on.
on_by_default : is_enabled "f" none (constructed (("f", defined bare) ∷ [])) ≡ true
unfolding is_enabled constructed
on_by_default = refl

off_when_unknown : is_enabled "g" none (constructed (("f", on_or_off true) ∷ [])) ≡ false
unfolding is_enabled constructed
off_when_unknown = refl

hash_of_text : hash "f:u1" ≡ 2087541501
unfolding hash
hash_of_text = refl

is_enabled-le_example :
    is_enabled "f" (some u1) (set_flag "f" (defined (with_rollout 6 10 bare)) []) ≡ true
unfolding is_enabled set_flag
is_enabled-le_example = is_enabled-le "f" (some u1) bare 5 6 10 [] (omega arith) refl
