-- ===== src/Prelude/JsSet.antt =====
-- The `Set` of JavaScript over texts: a list in insertion order.
use Prim.Native.String.{String}
use mathlib.Core.Path.{◌≡◌, refl}
use mathlib.Core.Bool.{Bool, false, ◌||◌, ◌&&◌, not}
use mathlib.Core.List.{List, [], ◌∷◌, ◌++◌}
use native.Mathlib.Omega.{arith}
use text.Mathlib.Text.{◌==◌ as str_eq}
use text.Mathlib.TextEquality.{eq_iff}
use text.Mathlib.TextPositions.{eq_refl}
use nexusts.Prelude.Tests.{if◌then◌else◌}

abbrev pub JsSet : Type 0
JsSet = List String

abbrev pub has : String → JsSet → Bool
has k [] = false
has k (j ∷ s) = str_eq j k || has k s

abbrev pub add : String → JsSet → JsSet
add k s = if has k s then s else s ++ k ∷ []

abbrev pub remove : String → JsSet → JsSet
remove k [] = []
remove k (j ∷ s) = if str_eq j k then remove k s else j ∷ remove k s

has-append : (j : String) (s t : JsSet) → has j (s ++ t) ≡ (has j s || has j t)
has-append j [] t = refl
has-append j (i ∷ s) t = ground (arith, has-append j s t)

pub has-add : (k j : String) (s : JsSet) → has j (add k s) ≡ (str_eq k j || has j s)
has-add k j s = ground (arith, has-append j s (k ∷ []), eq_iff k j)

pub has-remove : (k j : String) (s : JsSet) → has j (remove k s) ≡ (not (str_eq k j) && has j s)
has-remove k j [] = ground arith
has-remove k j (i ∷ s) = ground (arith, has-remove k j s, eq_iff i k, eq_iff i j, eq_iff k j)

remove_absent : (t : String) (s : JsSet) → has t s ≡ false → remove t s ≡ s
remove_absent t [] h = refl
remove_absent t (j ∷ s) h = ground (arith, remove_absent t s)

remove_last : (t : String) (s : JsSet) → has t s ≡ false → remove t (s ++ t ∷ []) ≡ s
remove_last t [] h = rw (eq_refl)
remove_last t (j ∷ s) h = ground (arith, remove_last t s)

pub remove-add : (t : String) (s : JsSet) → has t s ≡ false → remove t (add t s) ≡ s
remove-add t s h = rw h (remove_last t s h)
