-- ===== src/Tracing/Propagation/Tests.antt =====
-- packages/tracing/src/propagation.ts: headers that are read and written.
use nexusts.Prelude.{ℕ, ◌≡◌, refl, true, none, some, List, [], ◌∷◌}
use nexusts.Events.Pattern.{codes}
use nexusts.Tracing.Propagation.{
  ParsedTraceParent, to_lower_case, flags_of, parse_trace_parent, format_trace_parent,
  extract_b3_context,
}
use nexusts.Tracing.Propagation.RoundTrip.{parse-format}
use nexusts.Tracing.Propagation.Forwarding.{parse-forwards}

abbrev trace : List ℕ
trace = codes "4BF92F3577B34DA6A3CE929D0E0E4736"

abbrev span : List ℕ
span = codes "00f067aa0ba902b7"

-- The version of the standard that is not valid is accepted.
invalid_version :
    parse_trace_parent (some (codes "ff-4bf92f3577b34da6a3ce929d0e0e4736-00f067aa0ba902b7-03"))
    ≡ some (record {
      version = codes "ff";
      trace_id = codes "4bf92f3577b34da6a3ce929d0e0e4736";
      parent_span_id = codes "00f067aa0ba902b7";
      flags = codes "03";
      sampled = true;
    })
unfolding parse_trace_parent
invalid_version = refl

-- No context is taken from the header of the standard.
no_fall_through :
    extract_b3_context
      (("traceparent", codes "00-4bf92f3577b34da6a3ce929d0e0e4736-00f067aa0ba902b7-01") ∷ [])
    ≡ none
unfolding extract_b3_context
no_fall_through = refl

parse-format_example :
    parse_trace_parent (some (format_trace_parent trace span true))
    ≡ some (record {
      version = b'0' ∷ b'0' ∷ [];
      trace_id = to_lower_case trace;
      parent_span_id = to_lower_case span;
      flags = flags_of true;
      sampled = true;
    })
unfolding parse_trace_parent
parse-format_example = parse-format trace span refl refl refl refl true

abbrev forwarded : ParsedTraceParent
forwarded = record {
  version = codes "cc";
  trace_id = codes "4bf92f3577b34da6a3ce929d0e0e4736";
  parent_span_id = codes "00f067aa0ba902b7";
  flags = codes "03";
  sampled = true;
}

parse-forwards_example :
    parse_trace_parent
      (some (format_trace_parent forwarded.trace_id forwarded.parent_span_id forwarded.sampled))
    ≡ some (record forwarded { version = b'0' ∷ b'0' ∷ []; flags = flags_of forwarded.sampled })
unfolding parse_trace_parent
parse-forwards_example =
    parse-forwards (some (codes " cc-4BF92F3577B34DA6A3CE929D0E0E4736-00f067aa0ba902b7-03 "))
      forwarded refl
