-- ===== src/Config.antt =====
-- src/config.rs: the configuration, the values derived from it and its validation.
-- Reading files, expanding variables and parsing TOML are left out. Addresses are a parameter, with
-- their parser. An error is the case of the source's message with the names that it quotes.
pub mod Checks
pub mod Urls
pub mod ProviderHeaders
pub mod Addresses
pub mod Validation
pub mod Budget
pub mod Loading
pub mod Secrets
pub mod Defaults
pub mod Sample
pub mod Tests
use text.Mathlib.Text.{starts_with}
use sturnus.Prelude.{
  ℕ, ◌+◌, ◌*◌, ◌/◌, ◌%◌, ◌^◌, Bool, true, false, not, ◌&&◌, ◌||◌, String, ◌<>◌, List, [], ◌∷◌,
  Option, none, some, if◌then◌else◌, ltb, ◌==◌, string_eq, Eq, Result, ok, err, ◌>>=◌, ◌>>◌,
  bail_if, ok_or, any, length, cond,
}
use sturnus.Prelude.Dict.{Dict, lookup, contains_key, values}
use sturnus.F64.{F64, in_unit, fzero, u64_max}
use sturnus.Http.{Http}
use sturnus.Headers.{is_reserved_request_header}
use sturnus.Candidate.{ProviderKind, api_key, gcp_adc, azure_openai, anthropic}

pub record VertexAiConfig : Type 0 where
  pub project_id : String
  pub location : String
  pub attribution : Bool

pub record AzureOpenAiConfig : Type 0 where
  pub resource_name : String
  pub api_version : String

pub record GoogleAiConfig : Type 0 where
  pub api_version : String

pub record AnthropicConfig : Type 0 where
  pub version : String

pub record ProviderConfig : Type 0 where
  pub base_url : Option String
  pub api_key : Option String
  pub vertex_ai : Option VertexAiConfig
  pub azure_openai : Option AzureOpenAiConfig
  pub google_ai : Option GoogleAiConfig
  pub anthropic : Option AnthropicConfig
  pub headers : Dict String String

pub record ModelCandidate : Type 0 where
  pub provider : String
  pub model : String

pub record RoutingConfig (F : Type 0) : Type 0 where
  pub ewma_alpha : F
  pub exploit_k : F
  pub error_threshold : F
  pub connect_timeout_secs : ℕ
  pub read_timeout_secs : ℕ
  pub max_body_bytes : ℕ
  pub max_buffered_bytes : Option ℕ
  pub shutdown_timeout_secs : ℕ

pub record Config (F : Type 0) : Type 0 where
  pub listen : String
  pub metrics_listen : Option String
  pub provider : Dict String ProviderConfig
  pub model : Dict String (List ModelCandidate)
  pub routing : RoutingConfig F
  pub attribution : Dict String String

pub data HeaderError : Type 0 where
  invalid_name reserved invalid_value set_twice : String → HeaderError

pub data ConfigError : Type 0 where
  invalid_listen invalid_metrics_listen : String → ConfigError
  same_address : ConfigError
  ewma_alpha_range exploit_k_range error_threshold_range : ConfigError
  multiple_shorthands missing_base_url : (provider : String) → ConfigError
  invalid_base_url : (provider url : String) → ConfigError
  in_provider : (provider : String) → HeaderError → ConfigError
  unknown_provider : (alias provider : String) → ConfigError
  attribution_empty : ConfigError

-- The host of a Vertex location.
unfoldable pub vertex_host : String → String
vertex_host location =
    if location == "global"
    then "aiplatform.googleapis.com"
    else if location == "us" || location == "eu"
    then "aiplatform." <> location <> ".rep.googleapis.com"
    else location <> "-aiplatform.googleapis.com"

unfoldable pub vertex_url : VertexAiConfig → String
unfolding vertex_host
vertex_url v =
    "https://"
    <> vertex_host v.location
    <> "/v1beta1/projects/"
    <> v.project_id
    <> "/locations/"
    <> v.location
    <> "/endpoints/openapi"

-- The closure of `or_else`: the first shorthand in the order vertex, azure, google, anthropic.
unfoldable pub shorthand_url :
    Option VertexAiConfig
    → Option AzureOpenAiConfig
    → Option GoogleAiConfig
    → Option AnthropicConfig
    → Option String
unfolding vertex_url
shorthand_url (some v) az g a = some (vertex_url v)
shorthand_url none (some az) g a =
    some ("https://" <> az.resource_name <> ".openai.azure.com/openai")
shorthand_url none none (some g) a =
    some ("https://generativelanguage.googleapis.com/" <> g.api_version <> "/openai")
shorthand_url none none none (some a) = some "https://api.anthropic.com/v1"
shorthand_url none none none none = none

abbrev or_else : Option String → Option String → Option String
or_else (some s) other = some s
or_else none other = other

unfoldable pub resolved_base_url : ProviderConfig → Option String
unfolding shorthand_url
resolved_base_url p =
    or_else p.base_url (shorthand_url p.vertex_ai p.azure_openai p.google_ai p.anthropic)

unfoldable pub kind_of :
    Option String
    → Option VertexAiConfig
    → Option AzureOpenAiConfig
    → Option GoogleAiConfig
    → Option AnthropicConfig
    → ProviderKind
kind_of (some key) (some v) az g a = api_key
kind_of none (some v) az g a = gcp_adc
kind_of key none (some az) g a = azure_openai az.api_version
kind_of key none none (some g) a = api_key
kind_of key none none none (some a) = anthropic a.version
kind_of key none none none none = api_key

unfoldable pub resolved_kind : ProviderConfig → ProviderKind
unfolding kind_of
resolved_kind p = kind_of p.api_key p.vertex_ai p.azure_openai p.google_ai p.anthropic
