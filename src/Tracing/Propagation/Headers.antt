-- ===== src/Tracing/Propagation/Headers.antt =====
-- packages/tracing/src/propagation.ts, extractB3Context: the headers of B3.
use nexusts.Prelude.{ℕ, ◌≡◌, ◌≢◌, refl, true, false, ◌==◌, some, List, [], ◌∷◌, ◌++◌, arith}
use nexusts.Prelude.JsMap
use nexusts.Prelude.JsMap.{JsMap}
use nexusts.Tracing.Propagation.{
  has_dash, is_one, split, single_header, single_context, b3_context, b3_context_of,
  extract_b3_context,
}
use nexusts.Tracing.Propagation.RoundTrip.{split-dashless}

dash_inside : (s t : List ℕ) → has_dash (s ++ b'-' ∷ t) ≡ true
unfolding has_dash
dash_inside [] t = refl
dash_inside (c ∷ s) t = rw (dash_inside s t) (ground arith)

split-flag : (f : ℕ) → f ≢ b'-' → split (f ∷ []) ≡ (f ∷ []) ∷ []
unfolding split
split-flag f h = let other : (f == b'-') ≡ false = ground (arith, h) in rw other refl

single_header_of :
    (a b f : ℕ) (t s : List ℕ)
    → single_header ((a ∷ t) ∷ (b ∷ s) ∷ (f ∷ []) ∷ [])
      ≡ some (record { trace_id = a ∷ t; span_id = b ∷ s; sampled = f == b'1' })
unfolding single_header single_context is_one
single_header_of a b f t s = refl

-- The single header of a trace and a span whose ids are not empty and have no dash is read back,
-- whatever other headers there are.
pub extract_b3-written :
    (headers : JsMap (List ℕ)) (t s : List ℕ) (a b f : ℕ)
    → JsMap.get "b3" headers ≡ some ((a ∷ t) ++ b'-' ∷ ((b ∷ s) ++ b'-' ∷ f ∷ []))
    → has_dash (a ∷ t) ≡ false
    → has_dash (b ∷ s) ≡ false
    → f ≢ b'-'
    → extract_b3_context headers
      ≡ some (record { trace_id = a ∷ t; span_id = b ∷ s; sampled = f == b'1' })
unfolding extract_b3_context b3_context_of b3_context
extract_b3-written headers t s a b f e ht hs hf =
    let dashed : has_dash ((a ∷ t) ++ b'-' ∷ ((b ∷ s) ++ b'-' ∷ f ∷ [])) ≡ true =
      dash_inside (a ∷ t) ((b ∷ s) ++ b'-' ∷ f ∷ []) in
    rw
      (
        e,
        dashed,
        split-dashless (a ∷ t) ((b ∷ s) ++ b'-' ∷ f ∷ []) ht,
        split-dashless (b ∷ s) (f ∷ []) hs,
        split-flag f hf,
      )
      (single_header_of a b f t s)
