-- ===== src/Tracing/Propagation/RoundTrip.antt =====
-- packages/tracing/src/propagation.ts: the reading of a header that was written.
use nexusts.Prelude.{
  both, ℕ, zero, suc, ◌≡◌, refl, ap, ◌∙◌, Bool, true, false, ◌&&◌, ◌==◌, some, List, [], ◌∷◌, ◌++◌,
  arith,
}
use nexusts.Tracing.Propagation.{
  is_space, is_blank, trim_end, split, is_hex, is_hex_text, is_zeros, lower, to_lower_case,
  parse_hex, parse_fields, parse_parts, parse_trace_parent, flags_of, format_trace_parent, has_dash,
}

and_false : (a : Bool) → (a && false) ≡ false
and_false true = refl
and_false false = refl

lower-lower : (c : ℕ) → lower (lower c) ≡ lower c
lower-lower c = ground arith

pub to_lower_case-to_lower_case : (s : List ℕ) → to_lower_case (to_lower_case s) ≡ to_lower_case s
unfolding to_lower_case
to_lower_case-to_lower_case [] = refl
to_lower_case-to_lower_case (c ∷ s) =
    ap (λ (d : ℕ). d ∷ to_lower_case (to_lower_case s)) (lower-lower c)
    ∙ ap (λ (t : List ℕ). lower c ∷ t) (to_lower_case-to_lower_case s)

lower-is_hex : (c : ℕ) → is_hex c ≡ true → is_hex (lower c) ≡ true
lower-is_hex c h = ground (arith, h)

pub lower-is_hex_text :
    (n : ℕ) (s : List ℕ) → is_hex_text n s ≡ true → is_hex_text n (to_lower_case s) ≡ true
unfolding is_hex_text to_lower_case
lower-is_hex_text zero [] h = refl
lower-is_hex_text zero (c ∷ s) h = absurd (cc)
lower-is_hex_text (suc n) [] h = absurd (cc)
lower-is_hex_text (suc n) (c ∷ s) h =
    let (here, rest) = both (is_hex c) (is_hex_text n s) h in
    rw (lower-is_hex c here) (lower-is_hex_text n s rest)

lower-is_zero : (c : ℕ) → (lower c == b'0') ≡ (c == b'0')
lower-is_zero c = ground arith

pub lower-is_zeros : (n : ℕ) (s : List ℕ) → is_zeros n (to_lower_case s) ≡ is_zeros n s
unfolding is_zeros to_lower_case
lower-is_zeros zero [] = refl
lower-is_zeros zero (c ∷ s) = refl
lower-is_zeros (suc n) [] = refl
lower-is_zeros (suc n) (c ∷ s) = rw (lower-is_zero c, lower-is_zeros n s) refl

blank-append : (s t : List ℕ) → is_blank t ≡ false → is_blank (s ++ t) ≡ false
unfolding is_blank
blank-append [] t h = h
blank-append (c ∷ s) t h = rw (blank-append s t h) (and_false (is_space c))

trim_end-append : (s t : List ℕ) → is_blank t ≡ false → trim_end (s ++ t) ≡ s ++ trim_end t
unfolding trim_end
trim_end-append [] t h = refl
trim_end-append (c ∷ s) t h =
    rw (blank-append s t h, and_false (is_space c))
      (ap (λ (u : List ℕ). c ∷ u) (trim_end-append s t h))

-- A dash ends a part that has none.
pub split-dashless : (s t : List ℕ) → has_dash s ≡ false → split (s ++ b'-' ∷ t) ≡ s ∷ split t
unfolding split has_dash
split-dashless [] t h = refl
split-dashless (c ∷ s) t h =
    let other : (c == b'-') ≡ false = ground (arith, h) in
    let rest : has_dash s ≡ false = ground (arith, h) in rw (other, split-dashless s t rest) refl

hex-dashless : (n : ℕ) (s : List ℕ) → is_hex_text n s ≡ true → has_dash s ≡ false
unfolding is_hex_text has_dash
hex-dashless zero [] h = refl
hex-dashless zero (c ∷ s) h = absurd (cc)
hex-dashless (suc n) [] h = absurd (cc)
hex-dashless (suc n) (c ∷ s) h =
    let (here, rest) = both (is_hex c) (is_hex_text n s) h in
    let other : (c == b'-') ≡ false = ground (arith, here) in rw (other, hex-dashless n s rest) refl

-- Nothing is trimmed from a header that is written.
trim_end-written :
    (s t : List ℕ) (sampled : Bool)
    → trim_end (s ++ b'-' ∷ (t ++ b'-' ∷ flags_of sampled))
      ≡ s ++ b'-' ∷ (t ++ b'-' ∷ flags_of sampled)
unfolding trim_end is_blank
trim_end-written s t true =
    trim_end-append s (b'-' ∷ (t ++ b'-' ∷ flags_of true)) refl
    ∙ ap (λ (u : List ℕ). s ++ b'-' ∷ u) (trim_end-append t (b'-' ∷ flags_of true) refl)
trim_end-written s t false =
    trim_end-append s (b'-' ∷ (t ++ b'-' ∷ flags_of false)) refl
    ∙ ap (λ (u : List ℕ). s ++ b'-' ∷ u) (trim_end-append t (b'-' ∷ flags_of false) refl)

split-flags : (sampled : Bool) → split (flags_of sampled) ≡ flags_of sampled ∷ []
unfolding split
split-flags true = refl
split-flags false = refl

module _ (trace_id span_id : List ℕ) (trace_hex : is_hex_text 32 trace_id ≡ true)
    (trace_set : is_zeros 32 trace_id ≡ false) (span_hex : is_hex_text 16 span_id ≡ true)
    (span_set : is_zeros 16 span_id ≡ false) where
  parse_written :
      (sampled : Bool)
      → parse_fields
          (b'0' ∷ b'0' ∷ [])
          (to_lower_case trace_id)
          (to_lower_case span_id)
          (flags_of sampled)
        ≡ some (record {
          version = b'0' ∷ b'0' ∷ [];
          trace_id = to_lower_case trace_id;
          parent_span_id = to_lower_case span_id;
          flags = flags_of sampled;
          sampled = sampled;
        })
  unfolding parse_fields parse_hex
  parse_written true =
      rw
        (
          lower-is_hex_text 32 trace_id trace_hex,
          lower-is_zeros 32 trace_id,
          trace_set,
          lower-is_hex_text 16 span_id span_hex,
          lower-is_zeros 16 span_id,
          span_set,
          to_lower_case-to_lower_case trace_id,
          to_lower_case-to_lower_case span_id,
        )
        refl
  parse_written false =
      rw
        (
          lower-is_hex_text 32 trace_id trace_hex,
          lower-is_zeros 32 trace_id,
          trace_set,
          lower-is_hex_text 16 span_id span_hex,
          lower-is_zeros 16 span_id,
          span_set,
          to_lower_case-to_lower_case trace_id,
          to_lower_case-to_lower_case span_id,
        )
        refl

  -- A header that is written is read back: the ids in lower case, and whether the trace is sampled.
  pub parse-format :
      (sampled : Bool)
      → parse_trace_parent (some (format_trace_parent trace_id span_id sampled))
        ≡ some (record {
          version = b'0' ∷ b'0' ∷ [];
          trace_id = to_lower_case trace_id;
          parent_span_id = to_lower_case span_id;
          flags = flags_of sampled;
          sampled = sampled;
        })
  unfolding parse_trace_parent format_trace_parent parse_parts
  parse-format sampled =
      rw
        (
          trim_end-written (to_lower_case trace_id) (to_lower_case span_id) sampled,
          split-dashless (to_lower_case trace_id) (to_lower_case span_id ++ b'-' ∷ flags_of sampled)
              (hex-dashless 32 (to_lower_case trace_id) (lower-is_hex_text 32 trace_id trace_hex)),
          split-dashless (to_lower_case span_id) (flags_of sampled)
              (hex-dashless 16 (to_lower_case span_id) (lower-is_hex_text 16 span_id span_hex)),
          split-flags sampled,
        )
        (parse_written sampled)
