-- ===== src/Events/Pattern.antt =====
-- packages/events/src/emitter.ts, compilePattern: a pattern with wildcards as a regular expression,
-- and the test of an event name by it. A text is the list of its codes. The placeholders of the
-- source hold the character NUL, and a pattern is taken to hold none.
pub mod Segments
use nexusts.Prelude.{
  ℕ, Bool, true, false, not, ◌&&◌, ◌||◌, Option, none, some, List, [], ◌∷◌, String, ◌==◌,
  if◌then◌else◌, str_eq,
}
use Prim.Native.Char.{code}

abbrev pub codes : String → List ℕ
codes String.[] = []
codes (String.◌∷◌ c s) = code c ∷ codes s

-- What a pattern is compiled to: `anything` is `.*`, `segment` is `[^.]+`, and `literal` any other
-- character, escaped where the regular expression would read it as an operator.
pub data Atom : Type 0 where
  anything : Atom
  segment : Atom
  literal : ℕ → Atom

unfoldable pub is_star : ℕ → Bool
is_star c = c == b'*'

unfoldable pub is_dot : ℕ → Bool
is_dot c = c == b'.'

unfoldable pub includes_star : List ℕ → Bool
unfolding is_star
includes_star [] = false
includes_star (c ∷ s) = is_star c || includes_star s

unfoldable pub atom : ℕ → Atom
unfolding is_star
atom c = if is_star c then segment else literal c

-- `split("**")` takes the stars in pairs from the left, and `split("*")` those that are left.
unfoldable pub atoms : List ℕ → List Atom
unfolding is_star atom
atoms [] = []
atoms (c ∷ []) = atom c ∷ []
atoms (c ∷ d ∷ s) =
    let paired = anything ∷ atoms s in
    let single = atom c ∷ atoms (d ∷ s) in if is_star c && is_star d then paired else single

unfoldable pub compile_pattern : String → Option (List Atom)
unfolding includes_star atoms
compile_pattern pattern =
    if includes_star (codes pattern) then some (atoms (codes pattern)) else none

-- The characters that `.` of a regular expression does not match.
unfoldable pub is_line_end : ℕ → Bool
is_line_end c = c == 10 || (c == 13 || (c == 0x2028 || c == 0x2029))

-- `[^.]+` before what the continuation accepts, and `.*` before it.
unfoldable pub some_segment : (List ℕ → Bool) → List ℕ → Bool
unfolding is_dot
some_segment k [] = false
some_segment k (c ∷ s) = not (is_dot c) && (k s || some_segment k s)

unfoldable pub any_text : (List ℕ → Bool) → List ℕ → Bool
unfolding is_line_end
any_text k [] = k []
any_text k (c ∷ s) = k (c ∷ s) || (not (is_line_end c) && any_text k s)

unfoldable pub one_literal : ℕ → (List ℕ → Bool) → List ℕ → Bool
one_literal c k [] = false
one_literal c k (d ∷ s) = c == d && k s

unfoldable pub at_end : List ℕ → Bool
at_end [] = true
at_end (c ∷ s) = false

-- `regex.test(name)`, from the start to the end of the name.
unfoldable pub test : List Atom → List ℕ → Bool
unfolding some_segment any_text one_literal at_end
test [] = at_end
test (anything ∷ rest) = any_text (test rest)
test (segment ∷ rest) = some_segment (test rest)
test (literal c ∷ rest) = one_literal c (test rest)

abbrev pub matches_regex : Option (List Atom) → String → String → Bool
unfolding test
matches_regex none pattern name = str_eq pattern name
matches_regex (some regex) pattern name = test regex (codes name)
