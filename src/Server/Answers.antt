-- ===== src/Server/Answers.antt =====
-- The response to a request that reached its candidate, and what is counted of it.
use sturnus.Prelude.{
  ◌≡◌, ◌≢◌, refl, ap, ◌∙◌, String, List, [], ◌∷◌, some, Result, ok, err, if◌then◌else◌, ◌==◌,
  string_eq, arith,
}
use sturnus.F64.{F64}
use sturnus.Http.{values, IsHeaderMap}
use sturnus.Candidate.{ResolvedCandidate}
use sturnus.Metrics.{increased, sampled, Metrics, as_secs_f64}
use sturnus.Proxy.Auth.{values-with_extra}
use sturnus.Proxy.Request.{ForwardError, ProxyResult, UpstreamLatency, ttfc, total}
use sturnus.Server.{Env, Response, into_hyper_body, json_error, json_response}
use sturnus.Server.Request.{labels, with_status, respond}

module _ {F V M S C H J R E : Type 0} ⦃d : F64 F⦄ (env : Env F V M S C H J R E) where
  -- A response names the candidate that made it, whatever the upstream said.
  abbrev pub Names :
      ResolvedCandidate V M → Result (ForwardError E) (ProxyResult M) → Response M → Type 0
  Names c (err e) response =
      (response.status ≡ 502)
      × ((name : String)
          → values env.http response.headers name
            ≡ (if "content-type" == name then env.from_static "application/json" ∷ [] else []))
  Names c (ok r) response =
      (response.status ≡ r.status)
      × (response.body ≡ into_hyper_body r.body)
      × ((name : String)
          → values env.http response.headers name ≡ (
              if "x-session-affinity" == name
              then c.affinity_header ∷ []
              else if "x-sturnus-provider" == name
              then c.provider_header ∷ []
              else values env.http r.headers name))

  pub respond_lem :
      (laws : IsHeaderMap env.http) (c : ResolvedCandidate V M)
      (result : Result (ForwardError E) (ProxyResult M))
      → Names c result (respond env c result)
  unfolding respond json_error json_response
  respond_lem laws c (err e) = (
    refl,
    λ name.
        laws.values-insert name "content-type" (env.from_static "application/json")
          env.http.no_headers
        ∙ ground (arith, laws.values-no_headers name),
  )
  respond_lem laws c (ok r) = (
    refl,
    refl,
    λ name.
        laws.values-insert name "x-session-affinity" c.affinity_header _
        ∙ ap (λ l. if "x-session-affinity" == name then c.affinity_header ∷ [] else l)
            (laws.values-insert name "x-sturnus-provider" c.provider_header _
              ∙ ap (λ l. if "x-sturnus-provider" == name then c.provider_header ∷ [] else l)
                  (values-with_extra env.http laws (env.http.entries r.headers) env.http.no_headers
                      name
                    ∙ rw (laws.values-no_headers name) refl)),
  )

  -- One series of a counter went up, and no other changed.
  abbrev pub Counts : C → List String → C → Type 0
  Counts before l after =
      (env.prometheus.count after l ≡ some (increased (env.prometheus.count before l)))
      × ((k : List String) → l ≢ k → env.prometheus.count after k ≡ env.prometheus.count before k)

  -- One series of a histogram has one observation more, and no other changed.
  abbrev pub Samples : H → List String → F → H → Type 0
  Samples before l x after =
      (env.prometheus.samples after l ≡ some (sampled x (env.prometheus.samples before l)))
      × ((k : List String)
          → l ≢ k
          → env.prometheus.samples after k ≡ env.prometheus.samples before k)

  abbrev Observes : Metrics C H → List String → UpstreamLatency → Metrics C H → Type 0
  Observes m l (ttfc t) after =
      Samples m.ttfc_seconds l (as_secs_f64 t) after.ttfc_seconds
      × (after.latency_seconds ≡ m.latency_seconds)
  Observes m l (total t) after =
      Samples m.latency_seconds l (as_secs_f64 t) after.latency_seconds
      × (after.ttfc_seconds ≡ m.ttfc_seconds)

  -- What the metrics show of a result.
  abbrev pub Reports :
      Metrics C H
      → String
      → ResolvedCandidate V M
      → Result (ForwardError E) (ProxyResult M)
      → Metrics C H
      → Type 0
  Reports m alias c (err e) after =
      Counts m.errors_total (labels alias c) after.errors_total
      × (after.requests_total ≡ m.requests_total)
      × (after.ttfc_seconds ≡ m.ttfc_seconds)
      × (after.latency_seconds ≡ m.latency_seconds)
      × (after.buffer_rejections_total ≡ m.buffer_rejections_total)
  Reports m alias c (ok r) after =
      Counts m.requests_total (with_status env alias c r.status) after.requests_total
      × Observes m (labels alias c) r.latency after
      × (after.errors_total ≡ m.errors_total)
      × (after.buffer_rejections_total ≡ m.buffer_rejections_total)
