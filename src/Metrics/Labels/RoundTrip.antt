-- ===== src/Metrics/Labels/RoundTrip.antt =====
-- packages/metrics/src/counter.ts: the labels that are read back from a key.
use nexusts.Prelude.{
  ◌≡◌, refl, sym, subst, eq_iff, ap, ◌∙◌, true, false, some, List, [], ◌∷◌, ◌++◌, String, arith,
  str_eq, get_or_else, append_assoc, append-nil,
}
use Prim.Native.String.{◌++◌ as join}
use Prim.Native.Char.{Char}
use text.Mathlib.TextLemmas.{cons-append, nil-append}
use nexusts.Prelude.JsMap
use nexusts.Prelude.JsMap.{JsMap}
use nexusts.Metrics.Labels.{
  escape_label_value, part_of, parts_of, key, split_commas, cut, read_parts, parse_key,
}
use nexusts.Metrics.Labels.Splitting.{
  lacks, lacks-join, split-join, split-last, cut-join, escape-lacks,
}

abbrev pub value_in : String → JsMap String → String
value_in name labels = get_or_else (JsMap.get name labels) ""

-- The declared labels with their values, as they are written into a key.
abbrev pub entries : List String → JsMap String → JsMap String
entries [] labels = []
entries (name ∷ names) labels =
    (name, escape_label_value (value_in name labels)) ∷ entries names labels

-- No name holds a comma or an equals sign, no value a comma.
abbrev pub AllFit : List String → JsMap String → Type 0
AllFit [] labels = Unit
AllFit (name ∷ names) labels =
    (lacks b'=' name ≡ true)
    × ((lacks b',' name ≡ true)
        × ((lacks b',' (value_in name labels) ≡ true) × AllFit names labels))

abbrev pub written : List String → JsMap String → List String
written [] labels = []
written (name ∷ names) labels = part_of name labels ∷ written names labels

part-lacks :
    (name : String) (labels : JsMap String)
    → lacks b',' name ≡ true
    → lacks b',' (value_in name labels) ≡ true
    → lacks b',' (part_of name labels) ≡ true
unfolding part_of lacks
part-lacks name labels hn hv =
    lacks-join b',' name (join "=" (escape_label_value (value_in name labels))) hn (
      lacks-join b',' "=" (escape_label_value (value_in name labels)) refl
        (escape-lacks (value_in name labels) hv))

pub split-written :
    (name : String) (names : List String) (labels : JsMap String)
    → AllFit (name ∷ names) labels
    → split_commas (parts_of (name ∷ names) labels) ≡ written (name ∷ names) labels
unfolding parts_of
split-written name [] labels (_, (hn, (hv, _))) =
    split-last (part_of name labels) (part-lacks name labels hn hv)
split-written name (next ∷ names) labels (_, (hn, (hv, h))) =
    split-join (part_of name labels) (parts_of (next ∷ names) labels) (part-lacks name labels hn hv)
    ∙ ap (λ (ps : List String). part_of name labels ∷ ps) (split-written next names labels h)

set_fresh :
    (k v : String) (m : JsMap String) → JsMap.has k m ≡ false → JsMap.set k v m ≡ m ++ (k, v) ∷ []
set_fresh k v [] h = refl
set_fresh k v ((j, w) ∷ m) h = ground (arith, h, set_fresh k v m)

other_key :
    (j k v : String) (m es : JsMap String)
    → JsMap.has j (m ++ (k, v) ∷ es) ≡ false
    → str_eq k j ≡ false
other_key j k v [] es h = ground (arith, h)
other_key j k v ((i, w) ∷ m) es h = ground (arith, h, other_key j k v m es)

fresh_key :
    (k v : String) (m es : JsMap String) → JsMap.Distinct (m ++ (k, v) ∷ es) → JsMap.has k m ≡ false
fresh_key k v [] es h = refl
fresh_key k v ((j, w) ∷ m) es (new, h) =
    ground (arith, eq_iff k j, eq_iff j k, other_key j k v m es new, fresh_key k v m es h)

read-written :
    (names : List String) (labels out : JsMap String)
    → AllFit names labels
    → JsMap.Distinct (out ++ entries names labels)
    → read_parts (written names labels) out ≡ out ++ entries names labels
unfolding read_parts part_of
read-written [] labels out h d = sym (append-nil out)
read-written (name ∷ names) labels out (he, (hn, (hv, h))) d =
    let value : String = escape_label_value (value_in name labels) in
    let assoc : (out ++ (name, value) ∷ []) ++ entries names labels
        ≡ out ++ (name, value) ∷ entries names labels =
      append_assoc out ((name, value) ∷ []) (entries names labels) in
    let cut_part : cut (part_of name labels) ≡ (name, value) = cut-join name value he in
    let step : JsMap.set (cut (part_of name labels)).0 (cut (part_of name labels)).1 out
        ≡ out ++ (name, value) ∷ [] =
      ap (λ (p : String × String). JsMap.set p.0 p.1 out) cut_part
      ∙ set_fresh name value out (fresh_key name value out (entries names labels) d) in
    ap (read_parts (written names labels)) step
    ∙ read-written names labels (out ++ (name, value) ∷ []) h
        (subst (λ (m : JsMap String). JsMap.Distinct m) (sym assoc) d)
    ∙ assoc

parse_join :
    (s t : String) (c : Char)
    → parse_key (join s (String.◌∷◌ c t)) ≡ read_parts (split_commas (join s (String.◌∷◌ c t))) []
unfolding parse_key
parse_join String.[] t c = rw (nil-append (String.◌∷◌ c t)) refl
parse_join (String.◌∷◌ d s) t c = rw (cons-append d s (String.◌∷◌ c t)) refl

join_char : (c : Char) (s : String) → join (String.◌∷◌ c String.[]) s ≡ String.◌∷◌ c s
join_char c s = cons-append c String.[] s ∙ ap (String.◌∷◌ c) (nil-append s)

parse_written :
    (name : String) (names : List String) (labels : JsMap String)
    → parse_key (parts_of (name ∷ names) labels)
      ≡ read_parts (split_commas (parts_of (name ∷ names) labels)) []
unfolding parts_of part_of
parse_written name [] labels =
    let value : String = escape_label_value (value_in name labels) in
    subst (λ (t : String). parse_key (join name t) ≡ read_parts (split_commas (join name t)) [])
      (sym (join_char "=" value)) (parse_join name value "=")
parse_written name (next ∷ names) labels =
    let rest : String = parts_of (next ∷ names) labels in
    subst
      (λ (t : String).
        parse_key (join (part_of name labels) t)
        ≡ read_parts (split_commas (join (part_of name labels) t)) [])
      (sym (join_char "," rest)) (parse_join (part_of name labels) rest ",")

-- The samples of a counter have the labels that were given, with their values escaped, if the
-- declared names differ, none holds a comma or an equals sign, and no value holds a comma.
pub parse_key-key :
    (names : List String) (labels : JsMap String)
    → AllFit names labels
    → JsMap.Distinct (entries names labels)
    → parse_key (key names (some labels)) ≡ entries names labels
unfolding key parse_key
parse_key-key [] labels h d = refl
parse_key-key (name ∷ names) labels h d =
    parse_written name names labels
    ∙ ap (λ (ps : List String). read_parts ps []) (split-written name names labels h)
    ∙ read-written (name ∷ names) labels [] h d
