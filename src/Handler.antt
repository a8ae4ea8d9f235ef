-- ===== src/Handler.antt =====
-- src/server.rs: in `handle_request`, the choice of the candidate and what becomes of the result.
-- The affinity header, the candidates of the alias and the `stream` field are arguments, as are the
-- shared tracker and round-robin state; `none` stands for a panic on an index out of bounds.
pub mod Choice
pub mod Recording
pub mod Keeping
pub mod Tests
use sturnus.Prelude.{
  ℕ, Bool, true, false, ◌&&◌, String, List, Option, none, some, find, leb, ltb, if◌then◌else◌, ◌==◌,
  string_eq, Result, ok, err,
}
use sturnus.Prelude.Partial.{◌>>=◌}
use sturnus.Prelude.Str.{split_once_slash}
use sturnus.F64.{F64}
use sturnus.Http.{Http}
use sturnus.Candidate.{ResolvedCandidate}
use sturnus.Tracker.{
  LatencyMode, streaming, non_streaming, Tracker, Duration, is_degraded, record_success,
  record_error,
}
use sturnus.Router.{RoundRobinState, select_candidate}
use sturnus.Proxy.Request.{UpstreamLatency, ttfc, total, ProxyResult, ForwardError}

-- The provider and the model that an `x-session-affinity` header names.
unfoldable pub affinity_of : {V M : Type 0} → Http V M → Option V → Option (String × String)
unfolding split_once_slash
affinity_of h none = none
affinity_of h (some value) = elim (h.to_str value) [ none ↦ none | some s ↦ split_once_slash s ]

-- `get_as::<bool>("stream").unwrap_or(false)`, as the mode.
unfoldable pub latency_mode : Option Bool → LatencyMode
latency_mode (some true) = streaming
latency_mode (some false) = non_streaming
latency_mode none = non_streaming

module _ {V M : Type 0} where
  unfoldable pub is_named : String × String → ResolvedCandidate V M → Bool
  is_named (provider, model) c = c.provider_name == provider && c.model == model

module _ {F V M : Type 0} ⦃d : F64 F⦄ where
  -- A pin is dropped while its candidate is degraded.
  unfoldable pub keep_pin :
      Tracker F → Option (ResolvedCandidate V M) → Option (Option (ResolvedCandidate V M))
  keep_pin t none = some none
  keep_pin t (some c) = do
    degraded ← is_degraded t c.stats_index
    some (if degraded then none else some c)

  unfoldable pub pinned :
      Tracker F
      → List (ResolvedCandidate V M)
      → Option (String × String)
      → Option (Option (ResolvedCandidate V M))
  unfolding keep_pin is_named
  pinned t candidates none = some none
  pinned t candidates (some names) = keep_pin t (find (is_named names) candidates)

  -- The pinned candidate, or else the router's; no candidate at all is a 502.
  unfoldable pub route_to :
      String
      → List (ResolvedCandidate V M)
      → Tracker F
      → RoundRobinState
      → F
      → LatencyMode
      → Option (ResolvedCandidate V M)
      → Option (Option (ResolvedCandidate V M) × RoundRobinState)
  route_to alias candidates t rr k mode (some c) = some (some c, rr)
  route_to alias candidates t rr k mode none = select_candidate alias candidates t rr k mode

  unfoldable pub choose :
      String
      → List (ResolvedCandidate V M)
      → Tracker F
      → RoundRobinState
      → F
      → LatencyMode
      → Option (String × String)
      → Option (Option (ResolvedCandidate V M) × RoundRobinState)
  unfolding pinned route_to
  choose alias candidates t rr k mode affinity = do
    pin ← pinned t candidates affinity
    route_to alias candidates t rr k mode pin

-- `StatusCode::is_success`
abbrev pub is_success : ℕ → Bool
is_success status = leb 200 status && ltb status 300

-- The latency's mode and duration.
unfoldable pub observed : UpstreamLatency → LatencyMode × Duration
observed (ttfc d) = (streaming, d)
observed (total d) = (non_streaming, d)

module _ {F M E : Type 0} ⦃d : F64 F⦄ where
  -- What the tracker is told of a result.
  unfoldable pub record_result :
      Tracker F → ℕ → Result (ForwardError E) (ProxyResult M) → Option (Tracker F)
  unfolding observed
  record_result t index (err e) = record_error t index
  record_result t index (ok r) =
      let (mode, latency) = observed r.latency in
      if is_success r.status then record_success t index mode latency else record_error t index
