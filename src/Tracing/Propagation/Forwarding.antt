-- ===== src/Tracing/Propagation/Forwarding.antt =====
-- packages/tracing/src/propagation.ts: a header that was accepted, written again for the next service.
use nexusts.Prelude.{
  ℕ, ◌≡◌, refl, sym, ap, ◌∙◌, Bool, true, false, not, Option, none, some, List, [], ◌∷◌,
  if◌then◌else◌,
}
use nexusts.Tracing.Propagation.{
  ParsedTraceParent, trim, split, is_hex_text, is_zeros, to_lower_case, parse_fields, parse_parts,
  parse_trace_parent, flags_of, format_trace_parent,
}
use nexusts.Tracing.Propagation.RoundTrip.{
  to_lower_case-to_lower_case, lower-is_hex_text, lower-is_zeros, parse-format,
}

-- What a header that is accepted gives.
record IsFitting (p : ParsedTraceParent) : Type 0 where
  trace_hex : is_hex_text 32 p.trace_id ≡ true
  trace_set : is_zeros 32 p.trace_id ≡ false
  span_hex : is_hex_text 16 p.parent_span_id ≡ true
  span_set : is_zeros 16 p.parent_span_id ≡ false
  trace_low : to_lower_case p.trace_id ≡ p.trace_id
  span_low : to_lower_case p.parent_span_id ≡ p.parent_span_id

-- A test that returns early did not hold.
unless :
    (p : ParsedTraceParent) (b : Bool) (found : Option ParsedTraceParent)
    → (if b then none else found) ≡ some p
    → (b ≡ false) × (found ≡ some p)
unless p true found e = absurd (cc)
unless p false found e = (refl, e)

held : (b : Bool) → not b ≡ false → b ≡ true
held true h = refl
held false h = absurd (cc)

abbrev trace_of : Option ParsedTraceParent → List ℕ
trace_of none = []
trace_of (some p) = p.trace_id

abbrev span_of : Option ParsedTraceParent → List ℕ
span_of none = []
span_of (some p) = p.parent_span_id

parsed_fields :
    (v t s f : List ℕ) (p : ParsedTraceParent)
    → parse_fields v t s f ≡ some p
    → (is_hex_text 32 t ≡ true)
      × ((is_zeros 32 t ≡ false)
          × ((is_hex_text 16 s ≡ true)
              × ((is_zeros 16 s ≡ false)
                  × ((p.trace_id ≡ to_lower_case t) × (p.parent_span_id ≡ to_lower_case s)))))
unfolding parse_fields
parsed_fields v t s f p e =
    let (vh, e1) = unless p (not (is_hex_text 2 v)) _ e in
    let (th, e2) = unless p (not (is_hex_text 32 t)) _ e1 in
    let (tz, e3) = unless p (is_zeros 32 t) _ e2 in
    let (sh, e4) = unless p (not (is_hex_text 16 s)) _ e3 in
    let (sz, e5) = unless p (is_zeros 16 s) _ e4 in
    let (fh, e6) = unless p (not (is_hex_text 2 f)) _ e5 in
    (
      held (is_hex_text 32 t) th,
      (tz, (held (is_hex_text 16 s) sh, (sz, (sym (ap trace_of e6), sym (ap span_of e6))))),
    )

parse_fields-IsFitting :
    (v t s f : List ℕ) (p : ParsedTraceParent) → parse_fields v t s f ≡ some p → IsFitting p
parse_fields-IsFitting v t s f p e =
    let (th, (tz, (sh, (sz, (same_t, same_s))))) = parsed_fields v t s f p e in
    record {
      trace_hex = rw same_t (lower-is_hex_text 32 t th);
      trace_set = rw (same_t, lower-is_zeros 32 t) tz;
      span_hex = rw same_s (lower-is_hex_text 16 s sh);
      span_set = rw (same_s, lower-is_zeros 16 s) sz;
      trace_low = rw same_t (to_lower_case-to_lower_case t);
      span_low = rw same_s (to_lower_case-to_lower_case s);
    }

parse_parts-IsFitting :
    (parts : List (List ℕ)) (p : ParsedTraceParent) → parse_parts parts ≡ some p → IsFitting p
unfolding parse_parts
parse_parts-IsFitting [] p e = absurd (cc)
parse_parts-IsFitting (a ∷ []) p e = absurd (cc)
parse_parts-IsFitting (a ∷ b ∷ []) p e = absurd (cc)
parse_parts-IsFitting (a ∷ b ∷ c ∷ []) p e = absurd (cc)
parse_parts-IsFitting (a ∷ b ∷ c ∷ d ∷ []) p e = parse_fields-IsFitting a b c d p e
parse_parts-IsFitting (a ∷ b ∷ c ∷ d ∷ x ∷ parts) p e = absurd (cc)

parse-IsFitting :
    (header : Option (List ℕ)) (p : ParsedTraceParent)
    → parse_trace_parent header ≡ some p
    → IsFitting p
unfolding parse_trace_parent
parse-IsFitting none p e = absurd (cc)
parse-IsFitting (some []) p e = absurd (cc)
parse-IsFitting (some (c ∷ s)) p e = parse_parts-IsFitting (split (trim (c ∷ s))) p e

-- The header that is written from a header that was accepted, for the next service, is accepted there
-- and has the same trace, span and sampling, in version 0 and without the other flags.
pub parse-forwards :
    (header : Option (List ℕ)) (p : ParsedTraceParent)
    → parse_trace_parent header ≡ some p
    → parse_trace_parent (some (format_trace_parent p.trace_id p.parent_span_id p.sampled))
      ≡ some (record p { version = b'0' ∷ b'0' ∷ []; flags = flags_of p.sampled })
parse-forwards header p e =
    let fit : IsFitting p = parse-IsFitting header p e in
    parse-format p.trace_id p.parent_span_id fit.trace_hex fit.trace_set fit.span_hex fit.span_set
      p.sampled
    ∙ rw (fit.trace_low, fit.span_low) refl
