-- ===== src/Metrics/Labels/Keys.antt =====
-- packages/metrics/src/counter.ts: which labels have the same key.
use nexusts.Prelude.{
  ◌≡◌, refl, sym, ap, ◌∙◌, Bool, true, false, ◌&&◌, none, some, List, [], ◌∷◌, String, str_eq,
  eq_iff, eq_refl, both,
}
use Prim.Native.String.{◌++◌ as join}
use nexusts.Prelude.JsMap.{JsMap}
use nexusts.Metrics.Labels.{escape_label_value, part_of, parts_of, key, cut, split_commas}
use nexusts.Metrics.Labels.Splitting.{lacks, cut-join}
use nexusts.Metrics.Labels.Escaping.{escape-injective}
use nexusts.Metrics.Labels.RoundTrip.{value_in, AllFit, written, split-written}

-- Both give every name the same value.
abbrev pub agree : List String → JsMap String → JsMap String → Bool
agree [] labels others = true
agree (name ∷ names) labels others =
    str_eq (value_in name labels) (value_in name others) && agree names labels others

key-agree :
    (names : List String) (labels others : JsMap String)
    → agree names labels others ≡ true
    → parts_of names labels ≡ parts_of names others
unfolding parts_of part_of
key-agree [] labels others h = refl
key-agree (name ∷ []) labels others h =
    let (here, rest) = both (str_eq (value_in name labels) (value_in name others)) true h in
    ap (λ (v : String). join name (join "=" (escape_label_value v)))
      ((eq_iff (value_in name labels) (value_in name others)).0 here)
key-agree (name ∷ next ∷ names) labels others h =
    let (here, rest) =
      both (str_eq (value_in name labels) (value_in name others))
        (agree (next ∷ names) labels others) h in
    let same : part_of name labels ≡ part_of name others =
      ap (λ (v : String). join name (join "=" (escape_label_value v)))
        ((eq_iff (value_in name labels) (value_in name others)).0 here) in
    ap (λ (p : String). join p (join "," (parts_of (next ∷ names) labels))) same
    ∙ ap (λ (p : String). join (part_of name others) (join "," p))
        (key-agree (next ∷ names) labels others rest)

part_value :
    (name : String) (labels : JsMap String)
    → lacks b'=' name ≡ true
    → cut (part_of name labels) ≡ (name, escape_label_value (value_in name labels))
unfolding part_of
part_value name labels h = cut-join name (escape_label_value (value_in name labels)) h

abbrev first_part : List String → String
first_part [] = ""
first_part (p ∷ ps) = p

abbrev other_parts : List String → List String
other_parts [] = []
other_parts (p ∷ ps) = ps

written-agree :
    (names : List String) (labels others : JsMap String)
    → AllFit names labels
    → written names labels ≡ written names others
    → agree names labels others ≡ true
written-agree [] labels others h e = refl
written-agree (name ∷ names) labels others (he, (hn, (hv, h))) e =
    let parts : cut (part_of name labels) ≡ cut (part_of name others) =
      ap (λ ps. cut (first_part ps)) e in
    let values : (name, escape_label_value (value_in name labels))
        ≡ (name, escape_label_value (value_in name others)) =
      sym (part_value name labels he) ∙ (parts ∙ part_value name others he) in
    let value : value_in name labels ≡ value_in name others =
      escape-injective (value_in name labels) (value_in name others)
        (ap (λ (p : String × String). p.1) values) in
    let here : str_eq (value_in name labels) (value_in name others) ≡ true =
      (eq_iff (value_in name labels) (value_in name others)).1 value in
    rw here (written-agree names labels others h (ap other_parts e))

same_test : (a b : Bool) → (a ≡ true → b ≡ true) → (b ≡ true → a ≡ true) → a ≡ b
same_test true b f g = sym (f refl)
same_test false true f g = g refl
same_test false false f g = refl

-- Two combinations of labels have the same key exactly if they agree, where no name holds a comma or
-- an equals sign and no value a comma.
pub same_key :
    (names : List String) (labels others : JsMap String)
    → AllFit names labels
    → AllFit names others
    → str_eq (key names (some labels)) (key names (some others)) ≡ agree names labels others
unfolding key
same_key [] labels others h h' = eq_refl (parts_of [] labels)
same_key (name ∷ names) labels others h h' =
    same_test _ _
      (λ e. written-agree (name ∷ names) labels others h (
        sym (split-written name names labels h)
        ∙ (ap split_commas
              ((eq_iff (parts_of (name ∷ names) labels) (parts_of (name ∷ names) others)).0 e)
            ∙ split-written name names others h')))
      (λ e.
        (eq_iff (parts_of (name ∷ names) labels) (parts_of (name ∷ names) others)).1
          (key-agree (name ∷ names) labels others e))

pub key_empty : (others : JsMap String) → str_eq (key [] none) (key [] (some others)) ≡ true
unfolding key parts_of
key_empty others = refl
