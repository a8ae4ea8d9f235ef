-- ===== src/Server/Request.antt =====
-- `handle_request`: its data, and what it does apart from the shared state.
use sturnus.Prelude.{ℕ, Bool, String, List, [], ◌∷◌, Option, string_eq, Result, ok, err, ◌>>=◌}
use sturnus.F64.{F64}
use sturnus.Candidate.{ResolvedCandidate}
use sturnus.Body.{RawBody, visit_map}
use sturnus.Metrics.{Metrics, as_secs_f64}
use sturnus.Proxy.{unwrap_or, Bytes, OutboundBody}
use sturnus.Proxy.Request.{ForwardError, ProxyResult, UpstreamLatency, ttfc, total, with_extra}
use sturnus.Server.{
  Env, Failure, too_large, unreadable_body, not_an_object, invalid_json, upstream_failed,
  ParseError, data_category, other_category, Response, into_hyper_body, json_error,
}

-- A request before its body is read; its length is that of the `Content-Length` header.
pub record Incoming (M : Type 0) : Type 0 where
  pub method : String
  pub path : String
  pub headers : M
  pub declared_len : Option ℕ

-- Why a body was not read: the limit on its length, or another error.
pub data ReadFailure : Type 0 where
  length_limit other_failure : ReadFailure

pub data Begun (V M : Type 0) : Type 0 where
  answered : Response M → Begun V M
  -- The permits that the body owns, and the affinity header.
  reading : (owned : ℕ) → (affinity : Option V) → Begun V M

-- A request on its way to the upstream.
pub record Forwarding (V M : Type 0) : Type 0 where
  pub alias : String
  pub candidate : ResolvedCandidate V M
  pub outbound : OutboundBody ℕ
  pub is_streaming : Bool

pub data Routed (V M : Type 0) : Type 0 where
  rejected : Response M → Routed V M
  forwarding : Forwarding V M → Routed V M

module _ {V M : Type 0} where
  -- The labels of alias, provider and model.
  abbrev pub labels : String → ResolvedCandidate V M → List String
  labels alias c = alias ∷ c.provider_name ∷ c.model ∷ []

  -- The permits that the outbound body carries.
  abbrev pub owned_by : Forwarding V M → ℕ
  owned_by f = unwrap_or f.outbound.permit 0

module _ {F V M S C H J R E : Type 0} ⦃d : F64 F⦄ (env : Env F V M S C H J R E) where
  unfoldable pub parsed : Result (ParseError E) (RawBody R) → Result (ℕ × Failure E) (RawBody R)
  parsed (ok body) = ok body
  parsed (err (data_category e)) = err (400, not_an_object)
  parsed (err (other_category e)) = err (400, invalid_json e)

  -- The body once it is read, or the status and the reason of the response.
  unfoldable pub body_of : ℕ → Result ReadFailure Bytes → Result (ℕ × Failure E) (RawBody R)
  unfolding parsed
  body_of max_body (err length_limit) = err (413, too_large max_body)
  body_of max_body (err other_failure) = err (400, unreadable_body)
  body_of max_body (ok bytes) = parsed (env.entries bytes >>= visit_map)

  unfoldable pub respond :
      ResolvedCandidate V M → Result (ForwardError E) (ProxyResult M) → Response M
  respond c (err e) = json_error env 502 (upstream_failed e)
  respond c (ok r) =
      -- `extend`, of a map without headers.
      let extended = with_extra env.http (env.http.entries r.headers) env.http.no_headers in
      let named = (env.http.insert "x-sturnus-provider" c.provider_header extended).0 in
      record {
        status = r.status;
        headers = (env.http.insert "x-session-affinity" c.affinity_header named).0;
        body = into_hyper_body r.body;
      }

  unfoldable pub observe_latency : Metrics C H → List String → UpstreamLatency → Metrics C H
  unfolding as_secs_f64
  observe_latency m l (ttfc t) = record m {
    ttfc_seconds = env.prometheus.observe l (as_secs_f64 t) m.ttfc_seconds;
  }
  observe_latency m l (total t) = record m {
    latency_seconds = env.prometheus.observe l (as_secs_f64 t) m.latency_seconds;
  }

  abbrev pub with_status : String → ResolvedCandidate V M → ℕ → List String
  with_status alias c status = alias ∷ c.provider_name ∷ c.model ∷ env.show_number status ∷ []

  -- What the metrics are told of a result.
  unfoldable pub report :
      Metrics C H
      → String
      → ResolvedCandidate V M
      → Result (ForwardError E) (ProxyResult M)
      → Metrics C H
  unfolding observe_latency
  report m alias c (err e) = record m {
    errors_total = env.prometheus.inc (labels alias c) m.errors_total;
  }
  report m alias c (ok r) =
      observe_latency
        (record m {
          requests_total = env.prometheus.inc (with_status alias c r.status) m.requests_total;
        })
        (labels alias c) r.latency
