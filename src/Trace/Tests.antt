-- ===== src/Trace/Tests.antt =====
-- The headers of the source's own tests, and the theorem at one of them.
use Prim.Native.Char.{code}
use sturnus.Prelude.{ℕ, ◌≡◌, refl, ◌↔◌, [], ◌∷◌, none, some, String, nat_eq, ℕ_discrete}
use sturnus.Prelude.Str.{Text}
use sturnus.Prelude.Str.{trim}
use sturnus.Prelude.{string_eq}
use sturnus.Prelude.Str.{code_points}
use sturnus.Http.Table.{table_http}
use sturnus.Trace.{request_span}
use sturnus.Trace.{TraceContext, parse_traceparent}
use sturnus.Trace.Laws.{IsTraceparent, parse_traceparent_iff}

abbrev codes : String → Text
codes String.[] = []
codes (String.◌∷◌ c s) = code c ∷ codes s

abbrev context : TraceContext
context = record {
  trace_id = codes "0af7651916cd43dd8448eb211c80319c";
  parent_span_id = codes "b7ad6b7169203331";
}

abbrev valid : Text
valid = codes "  00-0af7651916cd43dd8448eb211c80319c-b7ad6b7169203331-01 "

parse_tests :
    (parse_traceparent valid ≡ some context)
    × (parse_traceparent (codes "cc-0af7651916cd43dd8448eb211c80319c-b7ad6b7169203331-01-x")
        ≡ some context)
    × (parse_traceparent [] ≡ none)
    × (parse_traceparent (codes "00-0af7651916cd43dd8448eb211c80319c-b7ad6b7169203331") ≡ none)
    × (parse_traceparent (codes "00-0af7651916cd43dd8448eb211c80319c-b7ad6b7169203331-01-x") ≡ none)
    × (parse_traceparent (codes "00-0af7651916cd43dd-b7ad6b7169203331-01") ≡ none)
    × (parse_traceparent (codes "00-0af7651916cd43dd8448eb211c80319g-b7ad6b7169203331-01") ≡ none)
    × (parse_traceparent (codes "00-00000000000000000000000000000000-b7ad6b7169203331-01") ≡ none)
    × (parse_traceparent (codes "ff-0af7651916cd43dd8448eb211c80319c-b7ad6b7169203331-01") ≡ none)
unfolding parse_traceparent nat_eq ℕ_discrete
parse_tests = (refl, refl, refl, refl, refl, refl, refl, refl, refl)

parse_traceparent_iff_example :
    (parse_traceparent valid ≡ some context) ↔ IsTraceparent (trim valid) context
parse_traceparent_iff_example = parse_traceparent_iff valid context

span_test :
    (request_span {I = ℕ} table_http 7
        (("traceparent", "00-0af7651916cd43dd8448eb211c80319c-b7ad6b7169203331-01") ∷ [])
      ≡ record {
        request_id = 7;
        context =
            parse_traceparent
              (code_points "00-0af7651916cd43dd8448eb211c80319c-b7ad6b7169203331-01");
      })
    × (request_span {I = ℕ} table_http 7 [] ≡ record { request_id = 7; context = none })
unfolding request_span table_http string_eq
span_test = (refl, refl)
