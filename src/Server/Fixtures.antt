-- ===== src/Server/Fixtures.antt =====
-- A request on the state that startup makes of the sample configuration.
use sturnus.Prelude.{◌≡◌, refl, true, String, [], ◌∷◌, some, ok, string_eq, nat_eq, ℕ_discrete}
use sturnus.F64.Fixed.{fixed_f64}
use sturnus.Http.Table.{Table, table_http}
use sturnus.Tracker.{is_degraded, stats_at}
use sturnus.Admission.{admit, reserve, want, new_budget}
use sturnus.Admission.Permits.{counting}
use sturnus.ModelMap.Sample.{llama_ready}
use sturnus.Config.Budget.{buffer_budget_bytes}
use sturnus.Startup.{app_state}
use sturnus.Startup.Sample.{SampleState, env, state}
use sturnus.Server.Request.{Incoming, reading, forwarding, Forwarding, body_of, parsed}
use sturnus.Body.{visit_map, get_as, get, set}
use sturnus.Handler.{affinity_of, choose, latency_mode}
use sturnus.Proxy.{prepare_outbound}
use sturnus.Prelude.Str.{split_once_slash}
use sturnus.Prelude.Dict.{lookup}
use sturnus.ModelMap
use sturnus.Server.Stages.{begin, admitted, route, accept, routed, send_to, dispatch}

abbrev pub post : Incoming Table
post = record {
  method = "POST";
  path = "/v1/chat/completions";
  headers = ("x-session-affinity", "local/llama") ∷ [];
  declared_len = some 2000;
}

abbrev pub two_taken : SampleState
two_taken = record state {
  budget = record { semaphore = 131070; permits = 131072; max_body_bytes = 33554432 };
}

pub began : begin env state post ≡ some (two_taken, reading 2 (some "local/llama"))
unfolding begin admitted admit reserve want app_state new_budget buffer_budget_bytes table_http
    counting string_eq
began = refl

abbrev pub sent : Forwarding String Table
sent = record {
  alias = "fast";
  candidate = llama_ready;
  outbound = record { data' = some (123 ∷ 125 ∷ []); permit = some 2 };
  is_streaming = true;
}

pub body_read :
    route env two_taken 2 (some "local/llama") (ok (1 ∷ 2 ∷ [])) ≡ some (two_taken, forwarding sent)
unfolding route routed accept body_of parsed visit_map get_as get affinity_of table_http choose
    send_to dispatch prepare_outbound app_state string_eq ℕ_discrete is_degraded stats_at fixed_f64
    split_once_slash latency_mode set lookup ModelMap.get
body_read = refl
