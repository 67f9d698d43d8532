-- ===== src/Metrics/Labels/Escaping.antt =====
-- packages/metrics/src/counter.ts, escapeLabelValue: no two values are escaped alike.
use nexusts.Prelude.{
  ◌≡◌, refl, sym, ap, ◌∙◌, Bool, true, false, ◌==◌, arith, if◌then◌else◌, Bool-cases, inl, inr,
  String,
}
use Prim.Native.String.{◌++◌ as join}
use Prim.Native.Char.{Char, code}
use text.Mathlib.TextLemmas.{cons-append, nil-append}
use text.Mathlib.TextEquality.{Char-path}
use nexusts.Metrics.Labels.{escaped_char, escape_label_value}

-- The character that stands behind a backslash.
abbrev named : Char → Char
named c = if code c == b'n' then "\n" else c

-- The value that was escaped; the flag says that a backslash was just read.
unescape : Bool → String → String
unescape after String.[] = String.[]
unescape true (String.◌∷◌ c s) = String.◌∷◌ (named c) (unescape false s)
unescape false (String.◌∷◌ c s) =
    let behind = unescape true s in
    let rest = unescape false s in if code c == b'\\' then behind else String.◌∷◌ c rest

is_char : (c d : Char) → (code c == code d) ≡ true → c ≡ d
is_char c d e = Char-path c d (ground (arith, e))

unescape-char :
    (c : Char) (s : String)
    → unescape false (join (escaped_char c) s) ≡ String.◌∷◌ c (unescape false s)
unfolding unescape
unescape-char c s = elim (Bool-cases (code c == b'\\')) [
  | inl e ↦ rw (e, is_char c "\\" e) (ap (unescape false) (two "\\" "\\"))
  | inr e ↦ rw e (elim (Bool-cases (code c == 10)) [
    | inl n ↦ rw (n, is_char c "\n" n) (ap (unescape false) (two "\\" "n"))
    | inr n ↦ rw n (elim (Bool-cases (code c == 34)) [
      | inl q ↦ rw (q, is_char c "\"" q) (ap (unescape false) (two "\\" "\""))
      | inr q ↦ rw (q, cons-append c String.[] s, nil-append s, e) refl
    ])
  ])
]
  where
    two :
        (a b : Char)
        → join (String.◌∷◌ a (String.◌∷◌ b String.[])) s ≡ String.◌∷◌ a (String.◌∷◌ b s)
    two a b =
        cons-append a (String.◌∷◌ b String.[]) s
        ∙ ap (String.◌∷◌ a) (cons-append b String.[] s ∙ ap (String.◌∷◌ b) (nil-append s))

unescape-escape : (s : String) → unescape false (escape_label_value s) ≡ s
unfolding unescape escape_label_value
unescape-escape String.[] = refl
unescape-escape (String.◌∷◌ c s) =
    unescape-char c (escape_label_value s) ∙ ap (String.◌∷◌ c) (unescape-escape s)

pub escape-injective : (s t : String) → escape_label_value s ≡ escape_label_value t → s ≡ t
escape-injective s t e = sym (unescape-escape s) ∙ (ap (unescape false) e ∙ unescape-escape t)
