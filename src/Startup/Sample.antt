-- ===== src/Startup/Sample.antt =====
-- The sample configuration, started over interfaces that run.
use sturnus.Prelude.{
  ℕ, ◌≡◌, refl, true, String, List, [], ◌∷◌, none, some, arith, if◌then◌else◌, ◌==◌, string_eq,
  Result, ok, err,
}
use sturnus.F64.Fixed.{Fixed, fixed_f64}
use sturnus.F64.FixedLaws.{fixed-IsIeee}
use sturnus.Http.Table.{Table, table_http}
use sturnus.Metrics.Table.{Series, table_prometheus}
use sturnus.Admission.Permits.{counting}
use sturnus.Config.Sample.{sample, sample_valid}
use sturnus.Config.Checks.{listen_addrs}
use sturnus.ModelMap.Sample.{registry, model_map, built}
use sturnus.Credentials.{GcpTokenProvider, new_provider}
use sturnus.Proxy.{Json, Bytes}
use sturnus.Server.{AppState, Env, ParseError, data_category, other_category}
use sturnus.Server.Ready.{IsReady}
use sturnus.System.{startup_tracker}
use sturnus.Startup.{app_state, launch, start_up}
use sturnus.Startup.Started.{start_up-IsReady}

abbrev pub SampleState : Type 0
SampleState =
    AppState Fixed String Table ℕ (Series ℕ) (Series (ℕ × Fixed)) (GcpTokenProvider String)

-- Raw values and JSON are texts.
abbrev pub sample_json : Json String String String
sample_json = record {
  raw_string = ok;
  raw_object = λ o. ok "{}";
  object_of = λ r. none;
  string_value = λ s. s;
  to_vec = λ b. ok (123 ∷ 125 ∷ []);
}

-- An empty body is no JSON and one byte is no object; any other asks for a stream of "fast".
abbrev pub sample_entries :
    Bytes → Result (ParseError String) (List (Result (ParseError String) (String × String)))
sample_entries [] = err (other_category "end of input")
sample_entries (b ∷ []) = err (data_category "expected a JSON object")
sample_entries (a ∷ b ∷ rest) = ok (ok ("model", "fast") ∷ ok ("stream", "true") ∷ [])

abbrev pub env : Env Fixed String Table ℕ (Series ℕ) (Series (ℕ × Fixed)) String String String
env = record {
  http = table_http;
  from_static = λ s. s;
  from_bytes = some;
  semaphore = counting;
  prometheus = table_prometheus;
  encode = λ m. ok [];
  json = sample_json;
  null = "null";
  number = λ n. "n";
  float = λ x. "x";
  array = λ l. "[]";
  object = λ o. "{}";
  value_to_vec = λ j. 123 ∷ 125 ∷ [];
  value_to_vec_pretty = λ j. 123 ∷ 125 ∷ [];
  entries = sample_entries;
  as_string = some;
  as_bool = λ r. if r == "true" then some true else none;
  utf8 = λ s. [];
  error_event = [];
  show_number = λ n. "n";
  show_names = λ l. "[]";
  show_error = λ e. e;
  show_forward_error = λ e. "e";
}

abbrev pub state : SampleState
state = app_state env some new_provider sample none none registry model_map

pub started :
    start_up env some new_provider sample none none
    ≡ ok (state, ("127.0.0.1:4000", some "127.0.0.1:9090"))
unfolding start_up launch startup_tracker listen_addrs string_eq
started = rw (sample_valid, built) refl

pub state-IsReady : IsReady state
unfolding app_state
state-IsReady =
    start_up-IsReady env some new_provider sample none none fixed-IsIeee state _ started
      (omega arith, (omega arith, tt))
