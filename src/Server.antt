-- ===== src/Server.antt =====
-- src/server.rs: the state that requests share, and the responses that the server makes itself.
-- `Env` holds what belongs to other crates, and the texts that `format!` makes of numbers, lists
-- and errors. The client of reqwest is an argument where it is used.
pub mod Observability
pub mod Request
pub mod Stages
pub mod Handle
pub mod Ready
pub mod Beginning
pub mod Routing
pub mod Branches
pub mod Reasons
pub mod Answers
pub mod Serving
pub mod Interleaved
pub mod Permits
pub mod Total
pub mod Pinning
pub mod Distinct
pub mod Status
pub mod Fixtures
pub mod Tests
pub mod Examples
use sturnus.Prelude.{ℕ, ◌/◌, Bool, String, ◌<>◌, List, [], ◌∷◌, Option, Result}
use sturnus.F64.{F64}
use sturnus.Http.{Http}
use sturnus.Tracker.{Tracker}
use sturnus.Router.{RoundRobinState}
use sturnus.ModelMap.{ModelMap}
use sturnus.Metrics.{Prometheus, Metrics}
use sturnus.Admission.{BufferBudget}
use sturnus.Admission.Permits.{Semaphore}
use sturnus.Proxy.{Bytes, Json}
use sturnus.Proxy.Request.{ForwardError, ProxyBody, streaming, full}

pub record AppState (F V M S C H G : Type 0) : Type 0 where
  pub model_map : ModelMap V M
  pub tracker : Tracker F
  pub rr_state : RoundRobinState
  pub exploit_k : F
  pub gcp_token_provider : Option G
  pub budget : BufferBudget S
  pub metrics : Metrics C H
  pub shutting_down : Bool

-- What goes wrong with a request, with what the message quotes; `E` is an error of serde_json or of
-- the upstream.
pub data Failure (E : Type 0) : Type 0 where
  not_found method_not_allowed no_content_length budget_exhausted : Failure E
  too_large : (max_body_bytes : ℕ) → Failure E
  unreadable_body not_an_object missing_model : Failure E
  invalid_json : E → Failure E
  unknown_alias : (alias : String) → (available : List String) → Failure E
  no_healthy_candidate : (alias : String) → Failure E
  unserializable metrics_unencodable : Failure E
  upstream_failed : ForwardError E → Failure E

-- An error of serde_json by its category.
pub data ParseError (E : Type 0) : Type 0 where
  data_category other_category : E → ParseError E

pub record Env (F V M S C H J R E : Type 0) : Type 0 where
  pub http : Http V M
  pub from_static : String → V
  pub from_bytes : V → Option V
  pub semaphore : Semaphore S
  pub prometheus : Prometheus F C H
  -- The text encoder over the registry.
  pub encode : Metrics C H → Result E Bytes
  pub json : Json R J E
  -- The values of the `json!` macro.
  pub null : J
  pub number : ℕ → J
  pub float : F → J
  pub array : List J → J
  pub object : List (String × J) → J
  pub value_to_vec : J → Bytes
  pub value_to_vec_pretty : J → Bytes
  -- The entries or errors of an object that the parser hands out; an error if it is no object.
  pub entries : Bytes → Result (ParseError E) (List (Result (ParseError E) (String × R)))
  pub as_string : R → Option String
  pub as_bool : R → Option Bool
  -- The bytes of a literal.
  pub utf8 : String → Bytes
  pub error_event : Bytes
  pub show_number : ℕ → String
  pub show_names : List String → String
  pub show_error : E → String
  pub show_forward_error : ForwardError E → String

-- `BoxBody`: all the bytes, or the frames of a stream.
pub data BoxBody : Type 0 where
  left : Bytes → BoxBody
  right : List Bytes → BoxBody

unfoldable pub into_hyper_body : ProxyBody → BoxBody
into_hyper_body (streaming chunks) = right chunks
into_hyper_body (full bytes) = left bytes

pub record Response (M : Type 0) : Type 0 where
  pub status : ℕ
  pub headers : M
  pub body : BoxBody

module _ {F V M S C H J R E : Type 0} (env : Env F V M S C H J R E) where
  unfoldable pub message : Failure E → String
  message not_found = "not found"
  message method_not_allowed = "method not allowed"
  message no_content_length = "Content-Length is required"
  message (too_large max_body_bytes) =
      "request body too large (max " <> env.show_number (max_body_bytes / 1024 / 1024) <> " MB)"
  message budget_exhausted = "buffer budget exhausted, retry shortly"
  message unreadable_body = "failed to read request body"
  message not_an_object = "request body must be a JSON object"
  message (invalid_json e) = "request body is not valid JSON: " <> env.show_error e
  message missing_model = "missing 'model' field in request body"
  message (unknown_alias alias available) =
      "unknown model alias '" <> alias <> "', available: " <> env.show_names available
  message (no_healthy_candidate alias) = "no healthy candidate for model alias '" <> alias <> "'"
  message unserializable = "failed to serialize outbound body"
  message metrics_unencodable = "failed to encode metrics"
  message (upstream_failed e) = "upstream error: " <> env.show_forward_error e

  unfoldable pub json_response : ℕ → Bytes → Response M
  json_response status bytes = record {
    status = status;
    headers =
        (env.http.insert "content-type" (env.from_static "application/json") env.http.no_headers).0;
    body = left bytes;
  }

  unfoldable pub json_error : ℕ → Failure E → Response M
  unfolding json_response message
  json_error status failure =
      let body = env.object (
        (
          "error",
          env.object (
              ("message", env.json.string_value (message failure))
              ∷ ("type", env.json.string_value "invalid_request_error")
              ∷ []),
        )
        ∷ []) in
      json_response status (env.value_to_vec body)
