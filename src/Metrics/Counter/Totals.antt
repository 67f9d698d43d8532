-- ===== src/Metrics/Counter/Totals.antt =====
-- packages/metrics/src/counter.ts: the values of a counter are totals.
use nexusts.Prelude.{
  ◌&&◌, ◌∙◌, inl, inr, Bool-cases, Bool, true, false, ℕ, ◌+◌, ◌≡◌, refl, eq_iff, ap, Option, none,
  some, List, [], ◌∷◌, String, arith, str_eq, if◌then◌else◌,
}
use nexusts.Prelude.JsMap
use nexusts.Prelude.JsMap.{JsMap}
use nexusts.Metrics.Labels.{LabelError, assert_labels, missing, key}
use nexusts.Metrics.Labels.RoundTrip.{AllFit}
use nexusts.Metrics.Labels.Keys.{agree, same_key, key_empty}
use nexusts.Metrics.Counter.{
  ℤ, pos, negsuc, Counter, value_of, add_if, inc_by, inc, Call, adding, counting, perform, run,
}

-- A call gives the labels that are declared: none if none is, and each of them otherwise.
abbrev pub has_all : List String → JsMap String → Bool
has_all [] labels = true
has_all (name ∷ names) labels = JsMap.has name labels && has_all names labels

abbrev pub gives : List String → Option (JsMap String) → Bool
gives [] none = true
gives [] (some labels) = false
gives (name ∷ names) none = false
gives (name ∷ names) (some labels) = has_all (name ∷ names) labels

abbrev pub agrees : List String → Option (JsMap String) → JsMap String → Bool
agrees names none target = true
agrees names (some labels) target = agree names labels target

-- What a call adds to the combination of labels.
abbrev pub added : List String → JsMap String → ℤ → Option (JsMap String) → ℕ
added names target (negsuc n) labels = 0
added names target (pos n) labels =
    if gives names labels && agrees names labels target then n else 0

abbrev pub call_added : List String → JsMap String → Call → ℕ
call_added names target (adding n labels) = added names target n labels
call_added names target (counting labels) = added names target (pos 1) labels

abbrev pub total : List String → JsMap String → List Call → ℕ
total names target [] = 0
total names target (call ∷ calls) = call_added names target call + total names target calls

-- No name holds a comma or an equals sign, and no value of a call a comma.
abbrev pub Fits : List String → Option (JsMap String) → Type 0
Fits names none = Unit
Fits names (some labels) = AllFit names labels

abbrev pub AllCallsFit : List String → List Call → Type 0
AllCallsFit names [] = Unit
AllCallsFit names (adding n labels ∷ calls) = Fits names labels × AllCallsFit names calls
AllCallsFit names (counting labels ∷ calls) = Fits names labels × AllCallsFit names calls

-- The same by the key of the call.
abbrev part_if : Option LabelError → String → String → ℕ → ℕ
part_if none k j n = if str_eq k j then n else 0
part_if (some e) k j n = 0

abbrev share : List String → String → ℤ → Option (JsMap String) → ℕ
share names j (pos n) labels = part_if (assert_labels names labels) (key names labels) j n
share names j (negsuc n) labels = 0

missing-has_all :
    (names : List String) (labels : JsMap String) (n : ℕ) (k j : String)
    → part_if (missing names labels) k j n ≡ (if has_all names labels && str_eq k j then n else 0)
unfolding missing
missing-has_all [] labels n k j = refl
missing-has_all (name ∷ names) labels n k j = elim (Bool-cases (JsMap.has name labels)) [
  | inl e ↦ rw e (missing-has_all names labels n k j)
  | inr e ↦ rw e refl
]

share-added :
    (names : List String) (target : JsMap String) (n : ℤ) (labels : Option (JsMap String))
    → AllFit names target
    → Fits names labels
    → share names (key names (some target)) n labels ≡ added names target n labels
unfolding assert_labels
share-added names target (negsuc n) labels t h = refl
share-added [] target (pos n) none t h = rw (key_empty target) refl
share-added [] target (pos n) (some labels) t h = refl
share-added (name ∷ names) target (pos n) none t h = refl
share-added (name ∷ names) target (pos n) (some labels) t h =
    missing-has_all (name ∷ names) labels n (key (name ∷ names) (some labels))
      (key (name ∷ names) (some target))
    ∙ ap (λ (b : Bool). if has_all (name ∷ names) labels && b then n else 0)
        (same_key (name ∷ names) labels target h t)

add_if-value :
    (wrong : Option LabelError) (k j : String) (n : ℕ) (c : Counter)
    → value_of j (add_if wrong k n c).0 ≡ value_of j c + part_if wrong k j n
unfolding add_if
add_if-value none k j n c = ground (
  arith,
  JsMap.get-set k j (value_of k c + n) c.values,
  eq_iff k j,
  ap (λ (i : String). JsMap.get i c.values),
)
add_if-value (some e) k j n c = omega arith

add_if-names :
    (wrong : Option LabelError) (k : String) (n : ℕ) (c : Counter)
    → (add_if wrong k n c).0.label_names ≡ c.label_names
unfolding add_if
add_if-names none k n c = refl
add_if-names (some e) k n c = refl

inc_by-value :
    (n : ℤ) (labels : Option (JsMap String)) (j : String) (c : Counter)
    → value_of j (inc_by n labels c).0 ≡ value_of j c + share c.label_names j n labels
unfolding inc_by
inc_by-value (pos n) labels j c =
    add_if-value (assert_labels c.label_names labels) (key c.label_names labels) j n c
inc_by-value (negsuc n) labels j c = omega arith

inc_by-names :
    (n : ℤ) (labels : Option (JsMap String)) (c : Counter)
    → (inc_by n labels c).0.label_names ≡ c.label_names
unfolding inc_by
inc_by-names (pos n) labels c =
    add_if-names (assert_labels c.label_names labels) (key c.label_names labels) n c
inc_by-names (negsuc n) labels c = refl

perform-names : (call : Call) (c : Counter) → (perform call c).label_names ≡ c.label_names
unfolding perform inc
perform-names (adding n labels) c = inc_by-names n labels c
perform-names (counting labels) c = inc_by-names (pos 1) labels c

module _ (names : List String) (target : JsMap String) (fits : AllFit names target) where
  inc_by-added :
      (n : ℤ) (labels : Option (JsMap String)) (c : Counter)
      → c.label_names ≡ names
      → Fits names labels
      → value_of (key names (some target)) (inc_by n labels c).0
        ≡ value_of (key names (some target)) c + added names target n labels
  inc_by-added n labels c e h =
      let mine : share c.label_names (key names (some target)) n labels
          ≡ added names target n labels =
        ap (λ (declared : List String). share declared (key names (some target)) n labels) e
        ∙ share-added names target n labels fits h in
      inc_by-value n labels (key names (some target)) c
      ∙ ap (λ (m : ℕ). value_of (key names (some target)) c + m) mine

  added_by_run :
      (calls : List Call) (c : Counter)
      → c.label_names ≡ names
      → AllCallsFit names calls
      → value_of (key names (some target)) (run calls c)
        ≡ value_of (key names (some target)) c + total names target calls
  unfolding run perform inc
  added_by_run [] c e h = omega arith
  added_by_run (adding n labels ∷ calls) c e (h, hs) = omega (
    arith,
    added_by_run calls (inc_by n labels c).0 (inc_by-names n labels c ∙ e) hs,
    inc_by-added n labels c e h,
  )
  added_by_run (counting labels ∷ calls) c e (h, hs) = omega (
    arith,
    added_by_run calls (inc_by (pos 1) labels c).0 (inc_by-names (pos 1) labels c ∙ e) hs,
    inc_by-added (pos 1) labels c e h,
  )

-- After any calls the value of a combination of labels is what it was, and what the calls have added
-- that gave each declared label with the value of the combination. A call with a negative number,
-- with a declared label missing, or with labels where none is declared adds nothing. No name holds a
-- comma or an equals sign, and no value a comma.
pub run-total :
    (calls : List Call) (target : JsMap String) (c : Counter)
    → AllFit c.label_names target
    → AllCallsFit c.label_names calls
    → value_of (key c.label_names (some target)) (run calls c)
      ≡ value_of (key c.label_names (some target)) c + total c.label_names target calls
run-total calls target c fits h = added_by_run c.label_names target fits calls c refl h
