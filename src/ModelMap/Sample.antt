-- ===== src/ModelMap/Sample.antt =====
-- What the sample configuration is built into.
use sturnus.Prelude.{◌≡◌, refl, String, [], ◌∷◌, none, some, string_eq, pair_eq, ok}
use sturnus.Prelude.Dict.{lookup, insert}
use sturnus.F64.{u64_max, fone}
use sturnus.F64.Fixed.{Fixed, literal, fixed_f64}
use sturnus.Http.Table.{Table, table_http}
use sturnus.Candidate.{ResolvedCandidate, api_key, gcp_adc}
use sturnus.Tracker.{Tracker, CandidateStats, new_stats}
use sturnus.Config.Sample.{sample}
use sturnus.Config.Checks.{resolved_headers}
use sturnus.Config.{resolved_base_url, resolved_kind}
use sturnus.ModelMap.{ModelMap, slot_for, Registry, from_config}

abbrev pub fresh : Tracker Fixed
fresh = record { stats = []; alpha = literal 3 1; error_threshold = literal 5 1 }

abbrev pub gemini_ready : ResolvedCandidate String Table
gemini_ready = record {
  provider_name = "vertex";
  model = "gemini";
  base_url =
      "https://aiplatform.eu.rep.googleapis.com/v1beta1/projects/p/locations/eu/endpoints/openapi";
  api_key = none;
  kind = gcp_adc;
  stats_index = 0;
  provider_header = "vertex";
  affinity_header = "vertex/gemini";
  attribution_labels = some (("team", "search") ∷ []);
  extra_headers = [];
}

abbrev pub llama_ready : ResolvedCandidate String Table
llama_ready = record {
  provider_name = "local";
  model = "llama";
  base_url = "http://localhost:8000/v1";
  api_key = some "k";
  kind = api_key;
  stats_index = 1;
  provider_header = "local";
  affinity_header = "local/llama";
  attribution_labels = none;
  extra_headers = ("x-team", "search") ∷ [];
}

abbrev pub slot : CandidateStats Fixed
slot = record { streaming_ewma_ms = u64_max; nonstreaming_ewma_ms = u64_max; success_rate = fone }

abbrev pub registry : Registry Fixed
registry = record {
  dedup = (("vertex", "gemini"), 0) ∷ (("local", "llama"), 1) ∷ [];
  tracker = record fresh { stats = slot ∷ slot ∷ [] };
}

abbrev pub model_map : ModelMap String Table
model_map = record {
  aliases = ("fast", gemini_ready ∷ llama_ready ∷ []) ∷ ("big", gemini_ready ∷ []) ∷ [];
}

pub built : from_config table_http sample fresh ≡ ok (registry, model_map)
unfolding from_config string_eq fixed_f64 table_http lookup resolved_base_url resolved_headers
    insert slot_for pair_eq resolved_kind new_stats
built = refl
