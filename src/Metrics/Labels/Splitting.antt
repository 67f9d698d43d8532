-- ===== src/Metrics/Labels/Splitting.antt =====
-- packages/metrics/src/counter.ts: texts that are joined by a mark and cut at it.
use nexusts.Prelude.{
  both, ℕ, ◌≡◌, refl, Bool, true, false, not, ◌&&◌, ◌==◌, [], ◌∷◌, String, Bool-cases, inl, inr,
}
use Prim.Native.String.{◌++◌ as join}
use Prim.Native.Char.{Char, code}
use text.Mathlib.TextLemmas.{cons-append, nil-append}
use nexusts.Metrics.Labels.{escaped_char, escape_label_value, split_commas, cut}

-- A text without the code.
unfoldable pub lacks : ℕ → String → Bool
lacks mark String.[] = true
lacks mark (String.◌∷◌ c s) = not (code c == mark) && lacks mark s

differs : (a : Bool) → not a ≡ true → a ≡ false
differs true h = absurd (cc)
differs false h = refl

pub lacks-join :
    (mark : ℕ) (s t : String)
    → lacks mark s ≡ true
    → lacks mark t ≡ true
    → lacks mark (join s t) ≡ true
unfolding lacks
lacks-join mark String.[] t hs ht = rw (nil-append t) ht
lacks-join mark (String.◌∷◌ c s) t hs ht =
    let (here, rest) = both (not (code c == mark)) (lacks mark s) hs in
    rw (cons-append c s t, here) (lacks-join mark s t rest ht)

-- A comma ends a part without one.
pub split-join :
    (s t : String) → lacks b',' s ≡ true → split_commas (join s (join "," t)) ≡ s ∷ split_commas t
unfolding split_commas lacks
split-join String.[] t h =
    rw (nil-append (join "," t), cons-append "," String.[] t, nil-append t) refl
split-join (String.◌∷◌ c s) t h =
    let (here, rest) = both (not (code c == b',')) (lacks b',' s) h in
    rw (cons-append c s (join "," t), differs (code c == b',') here, split-join s t rest) refl

pub split-last : (s : String) → lacks b',' s ≡ true → split_commas s ≡ s ∷ []
unfolding split_commas lacks
split-last String.[] h = refl
split-last (String.◌∷◌ c s) h =
    let (here, rest) = both (not (code c == b',')) (lacks b',' s) h in
    rw (differs (code c == b',') here, split-last s rest) refl

pub cut-join :
    (name value : String)
    → lacks b'=' name ≡ true
    → cut (join name (join "=" value)) ≡ (name, value)
unfolding cut lacks
cut-join String.[] value h =
    rw (nil-append (join "=" value), cons-append "=" String.[] value, nil-append value) refl
cut-join (String.◌∷◌ c s) value h =
    let (here, rest) = both (not (code c == b'=')) (lacks b'=' s) h in
    rw (cons-append c s (join "=" value), differs (code c == b'=') here, cut-join s value rest) refl

escaped-lacks : (c : Char) → (code c == b',') ≡ false → lacks b',' (escaped_char c) ≡ true
unfolding lacks
escaped-lacks c h = elim (Bool-cases (code c == b'\\')) [
  | inl e ↦ rw e refl
  | inr e ↦ rw e (elim (Bool-cases (code c == 10)) [
    | inl n ↦ rw n refl
    | inr n ↦ rw n (elim (Bool-cases (code c == 34)) [ inl q ↦ rw q refl | inr q ↦ rw (q, h) refl ])
  ])
]

pub escape-lacks : (s : String) → lacks b',' s ≡ true → lacks b',' (escape_label_value s) ≡ true
unfolding escape_label_value lacks
escape-lacks String.[] h = refl
escape-lacks (String.◌∷◌ c s) h =
    let (here, rest) = both (not (code c == b',')) (lacks b',' s) h in
    lacks-join b',' (escaped_char c) (escape_label_value s)
      (escaped-lacks c (differs (code c == b',') here)) (escape-lacks s rest)
