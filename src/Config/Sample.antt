-- ===== src/Config/Sample.antt =====
-- A configuration with a Vertex AI provider, a stated URL and two aliases that share a candidate.
use sturnus.Prelude.{◌≡◌, refl, [], ◌∷◌, none, some, true, ok, string_eq}
use sturnus.Prelude.Dict.{contains_key}
use sturnus.Http.Table.{table_http}
use sturnus.Config.Checks.{
  validate, listen_addrs, check_providers, shorthand_count, is_http, all_headers, check_models,
}
use sturnus.F64.Fixed.{Fixed, literal, fixed_f64}
use sturnus.Config.{resolved_base_url, ProviderConfig, ModelCandidate, Config}

abbrev pub vertex : ProviderConfig
vertex = record {
  base_url = none;
  api_key = none;
  vertex_ai = some (record { project_id = "p"; location = "eu"; attribution = true });
  azure_openai = none;
  google_ai = none;
  anthropic = none;
  headers = [];
}

abbrev pub local : ProviderConfig
local = record {
  base_url = some "http://localhost:8000/v1";
  api_key = some "k";
  vertex_ai = none;
  azure_openai = none;
  google_ai = none;
  anthropic = none;
  headers = ("x-team", "search") ∷ [];
}

abbrev pub gemini : ModelCandidate
gemini = record { provider = "vertex"; model = "gemini" }

abbrev pub llama : ModelCandidate
llama = record { provider = "local"; model = "llama" }

abbrev pub sample : Config Fixed
sample = record {
  listen = "127.0.0.1:4000";
  metrics_listen = some "127.0.0.1:9090";
  provider = ("vertex", vertex) ∷ ("local", local) ∷ [];
  model = ("fast", gemini ∷ llama ∷ []) ∷ ("big", gemini ∷ []) ∷ [];
  routing = record {
    ewma_alpha = literal 3 1;
    exploit_k = literal 3 0;
    error_threshold = literal 5 1;
    connect_timeout_secs = 10;
    read_timeout_secs = 60;
    max_body_bytes = 33554432;
    max_buffered_bytes = none;
    shutdown_timeout_secs = 30;
  };
  attribution = ("team", "search") ∷ [];
}

-- Addresses that are their text.
pub sample_valid : validate some table_http sample ≡ ok tt
unfolding validate string_eq fixed_f64 table_http listen_addrs check_providers shorthand_count
    resolved_base_url is_http all_headers check_models contains_key
sample_valid = refl
