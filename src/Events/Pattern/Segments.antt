-- ===== src/Events/Pattern/Segments.antt =====
-- packages/events/src/emitter.ts, compilePattern: patterns and names as lists of segments.
use nexusts.Prelude.{
  ℕ, ◌≡◌, refl, sym, ap, ◌∙◌, Bool, true, false, not, ◌&&◌, List, [], ◌∷◌, ◌++◌, ◌==◌, arith,
  append-nil, map,
}
use nexusts.Events.Pattern.{
  Atom, segment, literal, is_dot, atoms, some_segment, one_literal, at_end, test,
}

-- A segment of a pattern is a word or a star.
pub data Part : Type 0 where
  word : List ℕ → Part
  star : Part

abbrev pub has_no_dot : List ℕ → Bool
has_no_dot [] = true
has_no_dot (c ∷ s) = not (c == b'.') && has_no_dot s

abbrev pub is_plain : List ℕ → Bool
is_plain [] = true
is_plain (c ∷ s) = not (c == b'.') && (not (c == b'*') && is_plain s)

abbrev pub same_text : List ℕ → List ℕ → Bool
same_text [] [] = true
same_text [] (d ∷ t) = false
same_text (c ∷ s) [] = false
same_text (c ∷ s) (d ∷ t) = c == d && same_text s t

abbrev pub is_nonempty : List ℕ → Bool
is_nonempty [] = false
is_nonempty (c ∷ s) = true

-- The text of a pattern and of a name, from their segments.
abbrev pub part_text : Part → List ℕ
part_text (word w) = w
part_text star = b'*' ∷ []

abbrev pub pattern_text : Part → List Part → List ℕ
pattern_text p [] = part_text p
pattern_text p (q ∷ ps) = part_text p ++ b'.' ∷ pattern_text q ps

abbrev pub name_text : List ℕ → List (List ℕ) → List ℕ
name_text n [] = n
name_text n (m ∷ ns) = n ++ b'.' ∷ name_text m ns

-- A star stands for one segment that is not empty, a word for itself.
abbrev pub matches_part : Part → List ℕ → Bool
matches_part (word w) n = same_text w n
matches_part star n = is_nonempty n

abbrev pub matches_parts : Part → List Part → List ℕ → List (List ℕ) → Bool
matches_parts p [] n [] = matches_part p n
matches_parts p [] n (m ∷ ns) = false
matches_parts p (q ∷ ps) n [] = false
matches_parts p (q ∷ ps) n (m ∷ ns) = matches_part p n && matches_parts q ps m ns

abbrev pub plain_part : Part → Bool
plain_part (word w) = is_plain w
plain_part star = true

abbrev pub plain_parts : Part → List Part → Bool
plain_parts p [] = plain_part p
plain_parts p (q ∷ ps) = plain_part p && plain_parts q ps

abbrev pub dotless : List ℕ → List (List ℕ) → Bool
dotless n [] = has_no_dot n
dotless n (m ∷ ns) = has_no_dot n && dotless m ns

-- The atoms of a text that holds no pair of stars.
abbrev part_atoms : Part → List Atom
part_atoms (word w) = map literal w
part_atoms star = segment ∷ []

abbrev pattern_atoms : Part → List Part → List Atom
pattern_atoms p [] = part_atoms p
pattern_atoms p (q ∷ ps) = part_atoms p ++ literal b'.' ∷ pattern_atoms q ps

-- What follows a segment: nothing, or a dot.
abbrev begins_dotted : List ℕ → Bool
begins_dotted [] = true
begins_dotted (c ∷ s) = c == b'.'

atoms_plain : (c : ℕ) (s : List ℕ) → (c == b'*') ≡ false → atoms (c ∷ s) ≡ literal c ∷ atoms s
unfolding atoms
atoms_plain c [] h = ground (arith, h)
atoms_plain c (d ∷ s) h = ground (arith, h)

atoms_star : (s : List ℕ) → begins_dotted s ≡ true → atoms (b'*' ∷ s) ≡ segment ∷ atoms s
unfolding atoms
atoms_star [] h = refl
atoms_star (d ∷ s) h = ground (arith, h)

atoms_word : (w s : List ℕ) → is_plain w ≡ true → atoms (w ++ s) ≡ map literal w ++ atoms s
atoms_word [] s h = refl
atoms_word (c ∷ w) s h =
    atoms_plain c (w ++ s) (ground (arith, h))
    ∙ ap (λ (t : List Atom). literal c ∷ t) (atoms_word w s (ground (arith, h)))

atoms_part :
    (p : Part) (s : List ℕ)
    → plain_part p ≡ true
    → begins_dotted s ≡ true
    → atoms (part_text p ++ s) ≡ part_atoms p ++ atoms s
atoms_part (word w) s h b = atoms_word w s h
atoms_part star s h b = atoms_star s b

atoms_pattern :
    (p : Part) (ps : List Part)
    → plain_parts p ps ≡ true
    → atoms (pattern_text p ps) ≡ pattern_atoms p ps
unfolding atoms
atoms_pattern p [] h =
    ap atoms (sym (append-nil (part_text p))) ∙ atoms_part p [] h refl ∙ append-nil (part_atoms p)
atoms_pattern p (q ∷ ps) h =
    atoms_part p (b'.' ∷ pattern_text q ps) (ground (arith, h)) refl
    ∙ ap (λ (t : List Atom). part_atoms p ++ t)
        (atoms_plain b'.' (pattern_text q ps) refl
          ∙ ap (λ (t : List Atom). literal b'.' ∷ t) (atoms_pattern q ps (ground (arith, h))))

-- What may follow a segment accepts nothing that starts with another character than a dot.
abbrev Stops : (List ℕ → Bool) → Type 0
Stops k = (c : ℕ) (s : List ℕ) → (c == b'.') ≡ false → k (c ∷ s) ≡ false

Stops-end : Stops at_end
unfolding at_end
Stops-end c s h = refl

Stops-dot : (k : List ℕ → Bool) → Stops (one_literal b'.' k)
unfolding one_literal
Stops-dot k c s h = ground (arith, h)

-- The test of a word and of a star, before a continuation.
word_test : List ℕ → (List ℕ → Bool) → List ℕ → Bool
word_test [] k = k
word_test (c ∷ w) k = one_literal c (word_test w k)

part_test : Part → (List ℕ → Bool) → List ℕ → Bool
part_test (word w) k = word_test w k
part_test star k = some_segment k

word_test-same :
    (w n s : List ℕ) (k : List ℕ → Bool)
    → is_plain w ≡ true
    → has_no_dot n ≡ true
    → begins_dotted s ≡ true
    → Stops k
    → word_test w k (n ++ s) ≡ (same_text w n && k s)
unfolding word_test one_literal
word_test-same [] [] s k hw hn hs stops = refl
word_test-same [] (d ∷ n) s k hw hn hs stops = stops d (n ++ s) (ground (arith, hn))
word_test-same (c ∷ w) [] [] k hw hn hs stops = refl
word_test-same (c ∷ w) [] (d ∷ s) k hw hn hs stops = ground (arith, hw, hs)
word_test-same (c ∷ w) (d ∷ n) s k hw hn hs stops =
    ground
      (arith, hw, hn, word_test-same w n s k (ground (arith, hw)) (ground (arith, hn)) hs stops)

some_segment-nonempty :
    (n s : List ℕ) (k : List ℕ → Bool)
    → has_no_dot n ≡ true
    → begins_dotted s ≡ true
    → Stops k
    → some_segment k (n ++ s) ≡ (is_nonempty n && k s)
unfolding some_segment is_dot
some_segment-nonempty [] [] k hn hs stops = refl
some_segment-nonempty [] (d ∷ s) k hn hs stops = ground (arith, hs)
some_segment-nonempty (c ∷ []) s k hn hs stops =
    ground (arith, hn, some_segment-nonempty [] s k refl hs stops)
some_segment-nonempty (c ∷ d ∷ n) s k hn hs stops = ground (
  arith,
  hn,
  stops d (n ++ s) (ground (arith, hn)),
  some_segment-nonempty (d ∷ n) s k (ground (arith, hn)) hs stops,
)

part_test-matches :
    (p : Part) (n s : List ℕ) (k : List ℕ → Bool)
    → plain_part p ≡ true
    → has_no_dot n ≡ true
    → begins_dotted s ≡ true
    → Stops k
    → part_test p k (n ++ s) ≡ (matches_part p n && k s)
unfolding part_test
part_test-matches (word w) n s k hp hn hs stops = word_test-same w n s k hp hn hs stops
part_test-matches star n s k hp hn hs stops = some_segment-nonempty n s k hn hs stops

test_word : (w : List ℕ) (rest : List Atom) → test (map literal w ++ rest) ≡ word_test w (test rest)
unfolding test word_test
test_word [] rest = refl
test_word (c ∷ w) rest = ap (one_literal c) (test_word w rest)

test_part : (p : Part) (rest : List Atom) → test (part_atoms p ++ rest) ≡ part_test p (test rest)
unfolding test part_test
test_part (word w) rest = test_word w rest
test_part star rest = refl

-- At the end of a pattern, and before its next segment.
last_part :
    (p : Part) (n s : List ℕ)
    → plain_part p ≡ true
    → has_no_dot n ≡ true
    → begins_dotted s ≡ true
    → test (part_atoms p) (n ++ s) ≡ (matches_part p n && at_end s)
unfolding test
last_part p n s hp hn hs =
    ap (λ (as' : List Atom). test as' (n ++ s)) (sym (append-nil (part_atoms p)))
    ∙ ap (λ (f : List ℕ → Bool). f (n ++ s)) (test_part p [])
    ∙ part_test-matches p n s at_end hp hn hs Stops-end

inner_part :
    (p : Part) (rest : List Atom) (n s : List ℕ)
    → plain_part p ≡ true
    → has_no_dot n ≡ true
    → begins_dotted s ≡ true
    → test (part_atoms p ++ literal b'.' ∷ rest) (n ++ s)
      ≡ (matches_part p n && one_literal b'.' (test rest) s)
unfolding test
inner_part p rest n s hp hn hs =
    ap (λ (f : List ℕ → Bool). f (n ++ s)) (test_part p (literal b'.' ∷ rest))
    ∙ part_test-matches p n s (one_literal b'.' (test rest)) hp hn hs (Stops-dot (test rest))

test_parts :
    (p : Part) (ps : List Part) (n : List ℕ) (ns : List (List ℕ))
    → plain_parts p ps ≡ true
    → dotless n ns ≡ true
    → test (pattern_atoms p ps) (name_text n ns) ≡ matches_parts p ps n ns
unfolding at_end one_literal
test_parts p [] n [] hp hn =
    ap (test (part_atoms p)) (sym (append-nil n)) ∙ last_part p n [] hp hn refl ∙ ground arith
test_parts p [] n (m ∷ ns) hp hn =
    last_part p n (b'.' ∷ name_text m ns) hp (ground (arith, hn)) refl ∙ ground arith
test_parts p (q ∷ ps) n [] hp hn =
    ap (test (pattern_atoms p (q ∷ ps))) (sym (append-nil n))
    ∙ inner_part p (pattern_atoms q ps) n [] (ground (arith, hp)) hn refl
    ∙ ground arith
test_parts p (q ∷ ps) n (m ∷ ns) hp hn =
    inner_part p (pattern_atoms q ps) n (b'.' ∷ name_text m ns) (ground (arith, hp))
      (ground (arith, hn)) refl
    ∙ ap (λ (b : Bool). matches_part p n && b)
        (test_parts q ps m ns (ground (arith, hp)) (ground (arith, hn)))

-- A pattern whose segments are words without `.` and `*`, or single stars, matches a name exactly
-- if the name has as many segments, each word stands where it does in the pattern, and no segment
-- under a star is empty.
pub test_segments :
    (p : Part) (ps : List Part) (n : List ℕ) (ns : List (List ℕ))
    → plain_parts p ps ≡ true
    → dotless n ns ≡ true
    → test (atoms (pattern_text p ps)) (name_text n ns) ≡ matches_parts p ps n ns
test_segments p ps n ns hp hn =
    ap (λ (rest : List Atom). test rest (name_text n ns)) (atoms_pattern p ps hp)
    ∙ test_parts p ps n ns hp hn
