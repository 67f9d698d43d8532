-- ===== src/Metrics/Labels.antt =====
-- packages/metrics/src/counter.ts: the labels of a metric, and the key of a combination of them. The
-- gauge has the same functions. A label is in an object only if it was put there.
pub mod Splitting
mod Escaping
pub mod RoundTrip
pub mod Keys
mod Tests
use nexusts.Prelude.{
  ℕ, ◌+◌, Bool, true, false, not, ◌&&◌, Option, none, some, List, [], ◌∷◌, String, ◌==◌, str_eq,
  if◌then◌else◌, get_or_else, map,
}
use Prim.Native.String.{◌++◌ as join}
use Prim.Native.Char.{Char, code}
use nexusts.Prelude.JsMap
use nexusts.Prelude.JsMap.{JsMap}

pub data LabelError : Type 0 where
  no_labels_declared : LabelError
  requires_labels : LabelError
  missing_label : String → LabelError

-- What a character is replaced by; the three replacements are of different characters, and none
-- writes one that a later one replaces.
abbrev pub escaped_char : Char → String
escaped_char c =
    if code c == b'\\'
    then "\\\\"
    else if code c == 10
    then "\\n"
    else if code c == 34
    then "\\\""
    else String.◌∷◌ c String.[]

pub escape_label_value : String → String
escape_label_value String.[] = String.[]
escape_label_value (String.◌∷◌ c s) = join (escaped_char c) (escape_label_value s)

unfoldable pub missing : List String → JsMap String → Option LabelError
missing [] labels = none
missing (name ∷ names) labels =
    if JsMap.has name labels then missing names labels else some (missing_label name)

unfoldable pub assert_labels : List String → Option (JsMap String) → Option LabelError
unfolding missing
assert_labels [] none = none
assert_labels [] (some labels) = some no_labels_declared
assert_labels (name ∷ names) none = some requires_labels
assert_labels (name ∷ names) (some labels) = missing (name ∷ names) labels

pub part_of : String → JsMap String → String
unfolding escape_label_value
part_of name labels =
    join name (join "=" (escape_label_value (get_or_else (JsMap.get name labels) "")))

pub parts_of : List String → JsMap String → String
unfolding part_of
parts_of [] labels = ""
parts_of (name ∷ []) labels = part_of name labels
parts_of (name ∷ next ∷ names) labels =
    join (part_of name labels) (join "," (parts_of (next ∷ names) labels))

unfoldable pub key : List String → Option (JsMap String) → String
unfolding parts_of
key names none = ""
key names (some labels) = parts_of names labels

abbrev pub onto_first : Char → List String → List String
onto_first c [] = String.◌∷◌ c String.[] ∷ []
onto_first c (part ∷ parts) = String.◌∷◌ c part ∷ parts

-- `split(",")`.
pub split_commas : String → List String
split_commas String.[] = String.[] ∷ []
split_commas (String.◌∷◌ c s) =
    if code c == b',' then String.[] ∷ split_commas s else onto_first c (split_commas s)

-- The text before the first `=`, and the text behind it: `split("=")` with the rest joined again.
pub cut : String → String × String
cut String.[] = (String.[], String.[])
cut (String.◌∷◌ c s) =
    if code c == b'=' then (String.[], s) else (String.◌∷◌ c (cut s).0, (cut s).1)

pub read_parts : List String → JsMap String → JsMap String
unfolding cut
read_parts [] out = out
read_parts (part ∷ parts) out = read_parts parts (JsMap.set (cut part).0 (cut part).1 out)

unfoldable pub parse_key : String → JsMap String
unfolding read_parts split_commas
parse_key String.[] = []
parse_key (String.◌∷◌ c s) = read_parts (split_commas (String.◌∷◌ c s)) []

pub render_label : String → JsMap String → String
unfolding escape_label_value
render_label name labels =
    join name (join "=\"" (join (escape_label_value (get_or_else (JsMap.get name labels) "")) "\""))

pub join_commas : List String → String
join_commas [] = ""
join_commas (s ∷ []) = s
join_commas (s ∷ t ∷ texts) = join s (join "," (join_commas (t ∷ texts)))

unfoldable pub render_labels : List String → JsMap String → String
unfolding render_label join_commas
render_labels declared labels = join_commas (map (λ name. render_label name labels) declared)
