-- ===== src/Prelude/JsMap.antt =====
-- The `Map` of JavaScript over texts: an association list in insertion order. A write to a present
-- key keeps its place, a write to a new key goes to the end.
use Prim.Native.Nat.{◌+◌, ◌≤◌}
use Prim.Native.String.{String}
use mathlib.Core.Path.{◌≡◌, refl, sym, subst, ◌∙◌}
use mathlib.Core.Bool.{Bool, true, false, not}
use mathlib.Core.Option.{Option, none, some}
use mathlib.Core.List.{List, [], ◌∷◌}
use native.Mathlib.Omega.{arith}
use text.Mathlib.Text.{◌==◌ as str_eq}
use text.Mathlib.TextEquality.{eq_iff}
use text.Mathlib.TextPositions.{eq_refl}
use mathlib.Core.Logic.{◌≢◌, inl, inr}
use nexusts.Prelude.Tests.{if◌then◌else◌, is_some, Bool-cases}
use nexusts.Prelude.Lists.{length}

abbrev pub JsMap {ℓ} : Type ℓ → Type ℓ
JsMap V = List (String × V)

module _ {ℓ} {V : Type ℓ} where
  abbrev pub get : String → JsMap V → Option V
  get k [] = none
  get k ((j, v) ∷ m) = if str_eq j k then some v else get k m

  abbrev pub set : String → V → JsMap V → JsMap V
  set k v [] = (k, v) ∷ []
  set k v ((j, w) ∷ m) = if str_eq j k then (j, v) ∷ m else (j, w) ∷ set k v m

  abbrev pub delete : String → JsMap V → JsMap V
  delete k [] = []
  delete k ((j, w) ∷ m) = if str_eq j k then delete k m else (j, w) ∷ delete k m

  abbrev pub has : String → JsMap V → Bool
  has k m = is_some (get k m)

  abbrev pub keys : JsMap V → List String
  keys [] = []
  keys ((j, w) ∷ m) = j ∷ keys m

  -- No key occurs twice, as in every `Map`.
  abbrev pub Distinct : JsMap V → Type 0
  Distinct [] = Unit
  Distinct ((j, w) ∷ m) = (has j m ≡ false) × Distinct m

  pub get-set :
      (k j : String) (v : V) (m : JsMap V)
      → get j (set k v m) ≡ (if str_eq k j then some v else get j m)
  get-set k j v [] = refl
  get-set k j v ((i, w) ∷ m) = ground (arith, eq_iff k j, eq_iff i k, eq_iff i j, get-set k j v m)

  pub get-delete :
      (k j : String) (m : JsMap V) → get j (delete k m) ≡ (if str_eq k j then none else get j m)
  get-delete k j [] = ground arith
  get-delete k j ((i, w) ∷ m) = ground (arith, eq_iff k j, eq_iff i k, eq_iff i j, get-delete k j m)

  pub Distinct-set : (k : String) (v : V) (m : JsMap V) → Distinct m → Distinct (set k v m)
  Distinct-set k v [] h = (refl, tt)
  Distinct-set k v ((i, w) ∷ m) (p, h) =
      ground (arith, eq_iff i k, eq_iff k i, get-set k i v m, Distinct-set k v m h)

  pub Distinct-delete : (k : String) (m : JsMap V) → Distinct m → Distinct (delete k m)
  Distinct-delete k [] h = tt
  Distinct-delete k ((i, w) ∷ m) (p, h) = ground (arith, get-delete k i m, Distinct-delete k m h)

  pub length-set :
      (k : String) (v : V) (m : JsMap V)
      → length (set k v m) ≡ (if has k m then length m else length m + 1)
  length-set k v [] = omega arith
  length-set k v ((i, w) ∷ m) = ground (arith, length-set k v m)

  pub delete_absent : (k : String) (m : JsMap V) → get k m ≡ none → delete k m ≡ m
  delete_absent k [] h = refl
  delete_absent k ((i, w) ∷ m) h = ground (arith, delete_absent k m)

  pub length-delete :
      (k : String) (m : JsMap V)
      → Distinct m
      → (if has k m then length (delete k m) + 1 else length (delete k m)) ≡ length m
  length-delete k [] h = refl
  length-delete k ((i, w) ∷ m) (p, h) =
      ground (arith, eq_iff i k, delete_absent k m, length-delete k m h)

  pub length-delete-le : (k : String) (m : JsMap V) → length (delete k m) ≤ length m
  length-delete-le k [] = omega arith
  length-delete-le k ((i, w) ∷ m) = ground (arith, length-delete-le k m)

  pub get-set_self : (k : String) (v : V) (m : JsMap V) → get k (set k v m) ≡ some v
  get-set_self k v m = rw (get-set k k v m, eq_refl)

  pub get-set_ne : (k j : String) (v : V) (m : JsMap V) → k ≢ j → get j (set k v m) ≡ get j m
  get-set_ne k j v m h = ground (arith, get-set k j v m, eq_iff k j)

  pub get-delete_self : (k : String) (m : JsMap V) → get k (delete k m) ≡ none
  get-delete_self k m = rw (get-delete k k m, eq_refl)

  pub get-delete_ne : (k j : String) (m : JsMap V) → k ≢ j → get j (delete k m) ≡ get j m
  get-delete_ne k j m h = ground (arith, get-delete k j m, eq_iff k j)

module _ {ℓ κ} {V : Type ℓ} {W : Type κ} where
  abbrev pub map_values : (V → W) → JsMap V → JsMap W
  map_values f [] = []
  map_values f ((k, v) ∷ m) = (k, f v) ∷ map_values f m

  abbrev pub map_option : (V → W) → Option V → Option W
  map_option f none = none
  map_option f (some v) = some (f v)

  pub get-map_values :
      (f : V → W) (k : String) (m : JsMap V) → get k (map_values f m) ≡ map_option f (get k m)
  get-map_values f k [] = refl
  get-map_values f k ((j, v) ∷ m) = ground (arith, get-map_values f k m)

module _ {ℓ κ} {V : Type ℓ} {W : Type κ} where
  pub has-map_values : (f : V → W) (k : String) (m : JsMap V) → has k (map_values f m) ≡ has k m
  has-map_values f k [] = refl
  has-map_values f k ((j, v) ∷ m) = ground (arith, has-map_values f k m)

  pub Distinct-map_values : (f : V → W) (m : JsMap V) → Distinct m → Distinct (map_values f m)
  Distinct-map_values f [] h = tt
  Distinct-map_values f ((j, v) ∷ m) (a, h) = (has-map_values f j m ∙ a, Distinct-map_values f m h)

module _ {ℓ} {V : Type ℓ} where
  -- The entries that pass a test, in their order.
  abbrev pub keep : (String → V → Bool) → JsMap V → JsMap V
  keep p [] = []
  keep p ((k, v) ∷ m) = if p k v then (k, v) ∷ keep p m else keep p m

  abbrev pub passes : (String → V → Bool) → String → Option V → Option V
  passes p k none = none
  passes p k (some v) = if p k v then some v else none

  pub keep-absent :
      (p : String → V → Bool) (k : String) (m : JsMap V)
      → has k m ≡ false
      → has k (keep p m) ≡ false
  keep-absent p k [] h = refl
  keep-absent p k ((j, v) ∷ m) h = ground (arith, keep-absent p k m)

  pub get-keep :
      (p : String → V → Bool) (k : String) (m : JsMap V)
      → Distinct m
      → get k (keep p m) ≡ passes p k (get k m)
  get-keep p k [] h = refl
  get-keep p k ((j, v) ∷ m) (a, h) =
      ground (arith, eq_iff j k, keep-absent p j m a, get-keep p k m h)

  pub Distinct-keep : (p : String → V → Bool) (m : JsMap V) → Distinct m → Distinct (keep p m)
  Distinct-keep p [] h = tt
  Distinct-keep p ((k, v) ∷ m) (a, h) = ground (arith, keep-absent p k m a, Distinct-keep p m h)

  pub length-keep-le : (p : String → V → Bool) (m : JsMap V) → length (keep p m) ≤ length m
  length-keep-le p [] = omega arith
  length-keep-le p ((k, v) ∷ m) = ground (arith, length-keep-le p m)

-- A property of every entry.
module _ {ℓ κ} {V : Type ℓ} (P : String → V → Type κ) where
  abbrev pub Every : JsMap V → Type κ
  Every [] = Unit
  Every ((k, v) ∷ m) = P k v × Every m

  pub Every-get : (k : String) (v : V) (m : JsMap V) → Every m → get k m ≡ some v → P k v
  Every-get k v [] h e = absurd (cc)
  Every-get k v ((j, w) ∷ m) (p, h) e = elim (Bool-cases (str_eq j k)) [
    | inl q ↦
        let same : j ≡ k = (eq_iff j k).0 q in
        let here : w ≡ v = ground (arith, e, q) in
        subst (λ (x : V). P k x) here (subst (λ (i : String). P i w) same p)
    | inr q ↦ Every-get k v m h (ground (arith, e, q))
  ]

  pub Every-set : (k : String) (v : V) (m : JsMap V) → P k v → Every m → Every (set k v m)
  Every-set k v [] p h = (p, tt)
  Every-set k v ((j, w) ∷ m) p (q, h) = elim (Bool-cases (str_eq j k)) [
    | inl e ↦ rw e (subst (λ (i : String). P i v) (sym ((eq_iff j k).0 e)) p, h)
    | inr e ↦ rw e (q, Every-set k v m p h)
  ]

  pub Every-delete : (k : String) (m : JsMap V) → Every m → Every (delete k m)
  Every-delete k [] h = tt
  Every-delete k ((j, w) ∷ m) (q, h) = elim (Bool-cases (str_eq j k)) [
    | inl e ↦ rw e (Every-delete k m h)
    | inr e ↦ rw e (q, Every-delete k m h)
  ]

  pub Every-keep : (p : String → V → Bool) (m : JsMap V) → Every m → Every (keep p m)
  Every-keep p [] h = tt
  Every-keep p ((j, w) ∷ m) (q, h) = elim (Bool-cases (p j w)) [
    | inl e ↦ rw e (q, Every-keep p m h)
    | inr e ↦ rw e (Every-keep p m h)
  ]

module _ {ℓ} {V : Type ℓ} where
  pub length-keep-add :
      (p : String → V → Bool) (m : JsMap V)
      → length (keep p m) + length (keep (λ k v. not (p k v)) m) ≡ length m
  length-keep-add p [] = omega arith
  length-keep-add p ((k, v) ∷ m) = ground (arith, length-keep-add p m)

  pub keys-set : (k : String) (v : V) (m : JsMap V) → has k m ≡ true → keys (set k v m) ≡ keys m
  keys-set k v [] h = absurd (cc)
  keys-set k v ((j, w) ∷ m) h = ground (arith, h, keys-set k v m)
