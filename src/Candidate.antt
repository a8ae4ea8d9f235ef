-- ===== src/Candidate.antt =====
-- src/model_map.rs: a candidate that is ready for requests, and the kinds of providers.
-- `V` is the type of header values and `M` that of header maps, both of the http crate.
use sturnus.Prelude.{ℕ, String, Option}
use sturnus.Prelude.Dict.{Dict}

pub data ProviderKind : Type 0 where
  api_key gcp_adc : ProviderKind
  azure_openai : (api_version : String) → ProviderKind
  anthropic : (version : String) → ProviderKind

pub record ResolvedCandidate (V M : Type 0) : Type 0 where
  pub provider_name : String
  pub model : String
  pub base_url : String
  pub api_key : Option String
  pub kind : ProviderKind
  pub stats_index : ℕ
  pub provider_header : V
  pub affinity_header : V
  pub attribution_labels : Option (Dict String String)
  pub extra_headers : M
