-- ===== src/Server/Examples.antt =====
-- What a request and the status page come to, on the sample configuration.
use sturnus.Prelude.{
  ◌≡◌, refl, String, [], ◌∷◌, none, some, Result, ok, string_eq, nat_eq, ℕ_discrete,
}
use sturnus.F64.Fixed.{Fixed, literal, fixed_f64}
use sturnus.Http.Table.{Table, table_http, table-IsHeaderMap}
use sturnus.Candidate.{ResolvedCandidate}
use sturnus.Tracker.{streaming, is_degraded, stats_at}
use sturnus.Router.{RoundRobinState}
use sturnus.ModelMap.{get}
use sturnus.ModelMap.Sample.{fresh, gemini_ready, llama_ready, registry, model_map, built}
use sturnus.Config.Sample.{sample}
use sturnus.Handler.{affinity_of, choose}
use sturnus.Proxy.Request.{ProxyResult, ForwardError, ttfc, streaming as chunks}
use sturnus.Prelude.Str.{split_once_slash}
use sturnus.Prelude.Dict.{lookup}
use sturnus.Startup.Sample.{env, state}
use sturnus.Startup.{app_state}
use sturnus.Server.Request.{respond}
use sturnus.Server.Stages.{route, routed, accept, reject, give_back}
use sturnus.Server.Request.{rejected, body_of, parsed}
use sturnus.Server.{json_error, invalid_json}
use sturnus.Server.Reasons.{Explained, rejections-Explained}
use sturnus.Admission.{release, new_budget}
use sturnus.Admission.Permits.{counting}
use sturnus.Config.Budget.{buffer_budget_bytes}
use sturnus.Server.Pinning.{session_sticks}
use sturnus.Server.Fixtures.{two_taken}

abbrev response : ProxyResult Table
response = record {
  status = 200;
  headers = ("content-type", "text/event-stream") ∷ [];
  body = chunks ((1 ∷ []) ∷ []);
  latency = ttfc 50_000_000;
}

abbrev outcome : Result (ForwardError String) (ProxyResult Table)
outcome = ok response

abbrev rr : RoundRobinState
rr = record { counters = ("fast", 3) ∷ [] }

session_sticks_example :
    (again : ResolvedCandidate String Table) × (choose "fast"
        (gemini_ready ∷ llama_ready ∷ [])
        registry.tracker
        rr
        (literal 3 0)
        streaming
        (affinity_of env.http
          (env.http.remove "x-session-affinity" (("x-session-affinity", "local/llama") ∷ [])).1)
      ≡ some (some again, rr))
    × (again.provider_name ≡ "local")
    × (again.model ≡ "llama")
    × (again.stats_index ≡ 1)
unfolding get lookup string_eq split_once_slash table_http ℕ_discrete is_degraded stats_at fixed_f64
    respond
session_sticks_example =
    session_sticks env table-IsHeaderMap sample fresh registry model_map built "fast"
      (gemini_ready ∷ llama_ready ∷ []) 1 llama_ready registry.tracker rr (literal 3 0) streaming
      response (("x-session-affinity", "local/llama") ∷ []) refl refl refl refl refl refl

refused :
    route env two_taken 2 none (ok [])
    ≡ some (state, rejected (json_error env 400 (invalid_json "end of input")))
unfolding route routed accept body_of parsed reject give_back release app_state new_budget
    buffer_budget_bytes counting
refused = refl

rejections-Explained_example :
    Explained env two_taken 2 none (ok []) (json_error env 400 (invalid_json "end of input"))
rejections-Explained_example = rejections-Explained env two_taken 2 none (ok []) state _ refused
