-- ===== src/Tracing/Propagation.antt =====
-- packages/tracing/src/propagation.ts: the headers `traceparent` and B3. A text is the list of its
-- codes; the ids are texts in ASCII, which is as far as `lower` follows `toLowerCase`.
mod RoundTrip
mod Forwarding
mod Headers
mod Tests
use nexusts.Prelude.{
  ℕ, zero, suc, ◌+◌, ◌*◌, ◌-◌, ◌%◌, Bool, true, false, not, ◌&&◌, ◌||◌, Option, none, some, List,
  [], ◌∷◌, ◌++◌, ◌==◌, leb, if◌then◌else◌, map, String,
}
use nexusts.Prelude.JsMap
use nexusts.Prelude.JsMap.{JsMap}

pub record ParsedTraceParent : Type 0 where
  pub version : List ℕ
  pub trace_id : List ℕ
  pub parent_span_id : List ℕ
  pub flags : List ℕ
  pub sampled : Bool

abbrev pub between : ℕ → ℕ → ℕ → Bool
between low high c = leb low c && leb c high

-- What `trim` takes from the ends of a text: white space and line ends.
abbrev pub is_space : ℕ → Bool
is_space c =
    between 9 13 c
    || (c == 32
        || (c == 160
            || (c == 5760
                || (between 8192 8202 c
                    || (between 8232 8233 c
                        || (c == 8239 || (c == 8287 || (c == 12288 || c == 65279))))))))

pub is_blank : List ℕ → Bool
is_blank [] = true
is_blank (c ∷ s) = is_space c && is_blank s

pub trim_start : List ℕ → List ℕ
trim_start [] = []
trim_start (c ∷ s) = if is_space c then trim_start s else c ∷ s

pub trim_end : List ℕ → List ℕ
unfolding is_blank
trim_end [] = []
trim_end (c ∷ s) = if is_space c && is_blank s then [] else c ∷ trim_end s

pub trim : List ℕ → List ℕ
unfolding trim_start trim_end
trim s = trim_end (trim_start s)

abbrev pub onto_first : ℕ → List (List ℕ) → List (List ℕ)
onto_first c [] = (c ∷ []) ∷ []
onto_first c (p ∷ ps) = (c ∷ p) ∷ ps

-- `split("-")`.
pub split : List ℕ → List (List ℕ)
split [] = [] ∷ []
split (c ∷ s) = if c == b'-' then [] ∷ split s else onto_first c (split s)

abbrev pub is_hex : ℕ → Bool
is_hex c = between b'0' b'9' c || (between b'a' b'f' c || between b'A' b'F' c)

-- `/^[0-9a-f]{n}$/i`.
pub is_hex_text : ℕ → List ℕ → Bool
is_hex_text zero [] = true
is_hex_text zero (c ∷ s) = false
is_hex_text (suc n) [] = false
is_hex_text (suc n) (c ∷ s) = is_hex c && is_hex_text n s

-- Equality with `"0".repeat(n)`.
pub is_zeros : ℕ → List ℕ → Bool
is_zeros zero [] = true
is_zeros zero (c ∷ s) = false
is_zeros (suc n) [] = false
is_zeros (suc n) (c ∷ s) = c == b'0' && is_zeros n s

abbrev pub lower : ℕ → ℕ
lower c = if between b'A' b'Z' c then c + 32 else c

pub to_lower_case : List ℕ → List ℕ
to_lower_case [] = []
to_lower_case (c ∷ s) = lower c ∷ to_lower_case s

abbrev pub hex_value : ℕ → ℕ
hex_value c = if leb c b'9' then c - b'0' else if leb c b'F' then c - 55 else c - 87

-- `parseInt(text, 16)` of hexadecimal digits.
pub parse_hex : ℕ → List ℕ → ℕ
parse_hex acc [] = acc
parse_hex acc (c ∷ s) = parse_hex (acc * 16 + hex_value c) s

pub parse_fields : (version trace_id parent_span_id flags : List ℕ) → Option ParsedTraceParent
unfolding is_hex_text is_zeros to_lower_case parse_hex
parse_fields version trace_id parent_span_id flags =
    if not (is_hex_text 2 version)
    then none
    else if not (is_hex_text 32 trace_id)
    then none
    else if is_zeros 32 trace_id
    then none
    else if not (is_hex_text 16 parent_span_id)
    then none
    else if is_zeros 16 parent_span_id
    then none
    else if not (is_hex_text 2 flags)
    then none
    else some (record {
      version = version;
      trace_id = to_lower_case trace_id;
      parent_span_id = to_lower_case parent_span_id;
      flags = to_lower_case flags;
      sampled = parse_hex 0 flags % 2 == 1;
    })

pub parse_parts : List (List ℕ) → Option ParsedTraceParent
unfolding parse_fields
parse_parts [] = none
parse_parts (a ∷ []) = none
parse_parts (a ∷ b ∷ []) = none
parse_parts (a ∷ b ∷ c ∷ []) = none
parse_parts (a ∷ b ∷ c ∷ d ∷ []) = parse_fields a b c d
parse_parts (a ∷ b ∷ c ∷ d ∷ e ∷ parts) = none

-- A missing header is `none`.
pub parse_trace_parent : Option (List ℕ) → Option ParsedTraceParent
unfolding parse_parts split trim
parse_trace_parent none = none
parse_trace_parent (some []) = none
parse_trace_parent (some (c ∷ s)) = parse_parts (split (trim (c ∷ s)))

abbrev pub flags_of : Bool → List ℕ
flags_of sampled = if sampled then b'0' ∷ b'1' ∷ [] else b'0' ∷ b'0' ∷ []

pub format_trace_parent : List ℕ → List ℕ → Bool → List ℕ
unfolding to_lower_case
format_trace_parent trace_id span_id sampled =
    b'0'
    ∷ b'0'
    ∷ b'-'
    ∷ (to_lower_case trace_id ++ b'-' ∷ (to_lower_case span_id ++ b'-' ∷ flags_of sampled))

pub record B3Context : Type 0 where
  pub trace_id : List ℕ
  pub span_id : List ℕ
  pub sampled : Bool

-- `includes("-")`.
pub has_dash : List ℕ → Bool
has_dash [] = false
has_dash (c ∷ s) = c == b'-' || has_dash s

-- `=== "1"`.
pub is_one : List ℕ → Bool
is_one [] = false
is_one (c ∷ []) = c == b'1'
is_one (c ∷ d ∷ s) = false

abbrev pub is_one_header : Option (List ℕ) → Bool
unfolding is_one
is_one_header none = false
is_one_header (some s) = is_one s

pub single_context : List ℕ → List ℕ → Bool → Option B3Context
single_context [] s sampled = none
single_context (c ∷ t) [] sampled = none
single_context (c ∷ t) (d ∷ s) sampled =
    some (record { trace_id = c ∷ t; span_id = d ∷ s; sampled = sampled })

pub single_header : List (List ℕ) → Option B3Context
unfolding single_context is_one
single_header [] = none
single_header (t ∷ []) = none
single_header (t ∷ s ∷ []) = single_context t s false
single_header (t ∷ s ∷ f ∷ parts) = single_context t s (is_one f)

pub pair_of_headers : List ℕ → Option (List ℕ) → Bool → Option B3Context
pair_of_headers t none sampled = none
pair_of_headers t (some []) sampled = none
pair_of_headers t (some (c ∷ s)) sampled =
    some (record { trace_id = t; span_id = c ∷ s; sampled = sampled })

pub b3_context : List ℕ → JsMap (List ℕ) → Option B3Context
unfolding has_dash split single_header pair_of_headers
b3_context [] headers = none
b3_context (c ∷ s) headers =
    if has_dash (c ∷ s)
    then single_header (split (c ∷ s))
    else pair_of_headers (c ∷ s) (JsMap.get "x-b3-spanid" headers)
        (is_one_header (JsMap.get "x-b3-sampled" headers))

abbrev pub or_else : Option (List ℕ) → Option (List ℕ) → Option (List ℕ)
or_else none other = other
or_else (some s) other = some s

pub b3_context_of : Option (List ℕ) → JsMap (List ℕ) → Option B3Context
unfolding b3_context
b3_context_of none headers = none
b3_context_of (some s) headers = b3_context s headers

pub extract_b3_context : JsMap (List ℕ) → Option B3Context
unfolding b3_context_of
extract_b3_context headers =
    b3_context_of (or_else (JsMap.get "b3" headers) (JsMap.get "x-b3-traceid" headers)) headers
