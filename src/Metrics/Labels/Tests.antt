-- ===== src/Metrics/Labels/Tests.antt =====
-- packages/metrics/src/counter.ts: the key of a few labels.
use nexusts.Prelude.{◌≡◌, refl, String, some, [], ◌∷◌}
use nexusts.Prelude.JsMap.{JsMap}
use nexusts.Metrics.Labels.{key, parse_key}
use nexusts.Metrics.Labels.RoundTrip.{entries, parse_key-key}
use nexusts.Metrics.Labels.Splitting.{lacks}

abbrev quoted : JsMap String
quoted = ("path", "\"a\"") ∷ ("method", "GET") ∷ []

-- A value with a comma is cut in two labels.
cuts_at_comma :
    parse_key (key ("path" ∷ []) (some (("path", "a,b") ∷ []))) ≡ ("path", "a") ∷ ("b", "") ∷ []
unfolding key parse_key
cuts_at_comma = refl

parse_key-key_example :
    parse_key (key ("method" ∷ "path" ∷ []) (some quoted)) ≡ entries ("method" ∷ "path" ∷ []) quoted
unfolding lacks
parse_key-key_example =
    parse_key-key ("method" ∷ "path" ∷ []) quoted (refl, (refl, (refl, (refl, (refl, (refl, tt))))))
      (refl, (refl, tt))
