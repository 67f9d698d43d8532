-- ===== src/Metrics/Counter/Tests.antt =====
-- packages/metrics/src/counter.ts: calls of small counters.
use nexusts.Prelude.{◌+◌, ◌≡◌, refl, String, none, some, List, [], ◌∷◌}
use nexusts.Prelude.JsMap.{JsMap}
use nexusts.Metrics.Labels.{missing_label, key}
use nexusts.Metrics.Labels.Splitting.{lacks}
use nexusts.Metrics.Counter.{
  pos, negsuc, Counter, wrong_labels, value_of, inc_by, render_prometheus, Call, adding, counting,
  run,
}
use nexusts.Metrics.Counter.Totals.{total, run-total}

abbrev requests : Counter
requests = record {
  name = "requests_total";
  help = some "Requests.";
  label_names = "method" ∷ "path" ∷ [];
  values = [];
}

abbrev get_root : JsMap String
get_root = ("path", "/") ∷ ("method", "GET") ∷ []

abbrev quoted : JsMap String
quoted = ("path", "\"a\"") ∷ ("method", "GET") ∷ []

abbrev calls : List Call
calls =
    counting (some get_root)
    ∷ adding (pos 5) (some get_root)
    ∷ adding (negsuc 2) (some get_root)
    ∷ counting none
    ∷ counting (some (("method", "GET") ∷ []))
    ∷ counting (some quoted)
    ∷ []

adds_up :
    (run calls requests).values ≡ ("method=GET,path=/", 6) ∷ ("method=GET,path=\\\"a\\\"", 1) ∷ []
unfolding run key
adds_up = refl

names_the_missing :
    (inc_by (pos 1) (some (("method", "GET") ∷ [])) requests).1
    ≡ some (wrong_labels (missing_label "path"))
unfolding inc_by
names_the_missing = refl

-- A quotation mark is escaped when it is stored and once more when it is rendered.
renders :
    render_prometheus (run calls requests)
    ≡ "# HELP requests_total Requests.\n# TYPE requests_total counter\nrequests_total{method=\"GET\",path=\"/\"} 6\nrequests_total{method=\"GET\",path=\"\\\\\\\"a\\\\\\\"\"} 1"
unfolding run render_prometheus key
renders = refl

run-total_example :
    value_of (key requests.label_names (some get_root)) (run calls requests)
    ≡ value_of (key requests.label_names (some get_root)) requests
      + total requests.label_names get_root calls
unfolding lacks
run-total_example =
    run-total calls get_root requests (refl, (refl, (refl, (refl, (refl, (refl, tt))))))
      (
        (refl, (refl, (refl, (refl, (refl, (refl, tt)))))),
        (
          (refl, (refl, (refl, (refl, (refl, (refl, tt)))))),
          (
            (refl, (refl, (refl, (refl, (refl, (refl, tt)))))),
            (
              tt,
              (
                (refl, (refl, (refl, (refl, (refl, (refl, tt)))))),
                ((refl, (refl, (refl, (refl, (refl, (refl, tt)))))), tt),
              ),
            ),
          ),
        ),
      )
