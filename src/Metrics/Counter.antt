-- ===== src/Metrics/Counter.antt =====
-- packages/metrics/src/counter.ts: counters. A number is an integer.
mod Totals
mod Tests
use nexusts.Prelude.{
  ℕ, ◌+◌, Bool, true, false, Option, none, some, List, [], ◌∷◌, ◌++◌, str_eq, String, if◌then◌else◌,
  get_or_else,
}
use nexusts.Prelude.JsMap
use nexusts.Prelude.JsMap.{JsMap}
use nexusts.Prelude.Decimal.{decimal}
use Prim.Native.String.{◌++◌ as join}
use nexusts.Metrics.Labels.{LabelError, assert_labels, key, parse_key, render_labels}

pub data ℤ : Type 0 where
  pos : ℕ → ℤ
  negsuc : ℕ → ℤ

pub data CounterError : Type 0 where
  can_only_increase : ℤ → CounterError
  wrong_labels : LabelError → CounterError

pub record Counter : Type 0 where
  pub name : String
  pub help : Option String
  pub label_names : List String
  pub values : JsMap ℕ

pub record CounterOptions : Type 0 where
  pub name : String
  pub help : Option String
  pub label_names : Option (List String)

pub constructed : CounterOptions → Counter
constructed opts = record {
  name = opts.name;
  help = opts.help;
  label_names = get_or_else opts.label_names [];
  values = [];
}

abbrev pub value_of : String → Counter → ℕ
value_of k c = get_or_else (JsMap.get k c.values) 0

pub add_if : Option LabelError → String → ℕ → Counter → Counter × Option CounterError
add_if none k n c = (record c { values = JsMap.set k (value_of k c + n) c.values }, none)
add_if (some e) k n c = (c, some (wrong_labels e))

-- The error is what the call throws.
pub inc_by : ℤ → Option (JsMap String) → Counter → Counter × Option CounterError
unfolding assert_labels add_if
inc_by (negsuc n) labels c = (c, some (can_only_increase (negsuc n)))
inc_by (pos n) labels c = add_if (assert_labels c.label_names labels) (key c.label_names labels) n c

pub inc : Option (JsMap String) → Counter → Counter × Option CounterError
unfolding inc_by
inc labels c = inc_by (pos 1) labels c

pub reset : Counter → Counter
reset c = record c { values = [] }

pub samples_of : JsMap ℕ → List (JsMap String × ℕ)
unfolding parse_key
samples_of [] = []
samples_of ((k, v) ∷ values) = (parse_key k, v) ∷ samples_of values

pub get_samples : Counter → List (JsMap String × ℕ)
unfolding samples_of
get_samples c = samples_of c.values

abbrev pub help_lines : String → Option String → List String
help_lines name none = []
help_lines name (some text) =
    if str_eq text "" then [] else join "# HELP " (join name (join " " text)) ∷ []

pub sample_line : String → String → ℕ → String
unfolding decimal
sample_line name labels v =
    if str_eq labels ""
    then join name (join " " (decimal v))
    else join name (join "{" (join labels (join "} " (decimal v))))

pub sample_lines : String → List String → JsMap ℕ → List String
unfolding sample_line parse_key render_labels
sample_lines name declared [] = []
sample_lines name declared ((k, v) ∷ values) =
    sample_line name (render_labels declared (parse_key k)) v ∷ sample_lines name declared values

pub join_lines : List String → String
join_lines [] = ""
join_lines (s ∷ []) = s
join_lines (s ∷ t ∷ lines) = join s (join "\n" (join_lines (t ∷ lines)))

pub render_prometheus : Counter → String
unfolding sample_lines join_lines
render_prometheus c = join_lines (
    help_lines c.name c.help
    ++ join "# TYPE " (join c.name " counter") ∷ sample_lines c.name c.label_names c.values)

pub data Call : Type 0 where
  adding : ℤ → Option (JsMap String) → Call
  counting : Option (JsMap String) → Call

pub perform : Call → Counter → Counter
unfolding inc_by inc
perform (adding n labels) c = (inc_by n labels c).0
perform (counting labels) c = (inc labels c).0

pub run : List Call → Counter → Counter
unfolding perform
run [] c = c
run (call ∷ calls) c = run calls (perform call c)
