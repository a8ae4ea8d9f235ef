-- ===== src/Server/Stages.antt =====
-- `handle_request`, cut where it waits: `begin` runs until the body is read, `route` until the
-- upstream has answered, `finish` to the end. Other requests run between them, so each takes the
-- shared state and returns it. `none` stands for the panic of an index out of bounds.
use sturnus.Prelude.{
  ℕ, ◌+◌, ◌%◌, Bool, false, not, String, List, Option, none, some, if◌then◌else◌, ◌==◌, string_eq,
  Result, ok, err, ◌>>=◌, ok_or,
}
use sturnus.Prelude.Partial
use sturnus.F64.{F64, u64_mod}
use sturnus.Candidate.{ResolvedCandidate}
use sturnus.Body.{RawBody, get_as}
use sturnus.ModelMap.{get, alias_names}
use sturnus.Admission.{
  BufferBudget, Refusal, length_required, payload_too_large, too_many_requests, admit, release,
}
use sturnus.Handler.{affinity_of, latency_mode, choose, record_result}
use sturnus.Proxy.{unwrap_or, Bytes, OutboundBody, prepare_outbound}
use sturnus.Proxy.Request.{ForwardError, ProxyResult}
use sturnus.Server.{
  AppState, Env, Failure, method_not_allowed, no_content_length, budget_exhausted, too_large,
  missing_model, unknown_alias, no_healthy_candidate, unserializable, Response, json_error,
}
use sturnus.Server.Observability.{observability_get, or_not_found}
use sturnus.Server.Request.{
  Incoming, ReadFailure, Begun, answered, reading, Forwarding, Routed, rejected, forwarding,
  body_of, respond, report,
}

module _ {F V M S C H J R E G : Type 0} ⦃d : F64 F⦄ (env : Env F V M S C H J R E) where
  -- The early returns of the guards; a 429 is counted.
  unfoldable pub refuse : AppState F V M S C H G → Refusal → AppState F V M S C H G × Response M
  refuse state length_required = (state, json_error env 411 no_content_length)
  refuse state payload_too_large =
      (state, json_error env 413 (too_large state.budget.max_body_bytes))
  refuse state too_many_requests =
      let resp = json_error env 429 budget_exhausted in
      (
        record state {
          metrics = record state.metrics {
            buffer_rejections_total = (state.metrics.buffer_rejections_total + 1) % u64_mod;
          };
        },
        record resp {
          headers = (env.http.insert "retry-after" (env.from_static "1") resp.headers).0;
        },
      )

  abbrev refused : AppState F V M S C H G × Response M → AppState F V M S C H G × Begun V M
  refused (state, resp) = (state, answered resp)

  unfoldable pub admitted :
      AppState F V M S C H G
      → Option V
      → Result Refusal (BufferBudget S × ℕ)
      → AppState F V M S C H G × Begun V M
  unfolding refuse
  admitted state affinity (err refusal) = refused (refuse state refusal)
  admitted state affinity (ok (budget, owned)) =
      (record state { budget = budget }, reading owned affinity)

  unfoldable pub begin :
      AppState F V M S C H G → Incoming M → Option (AppState F V M S C H G × Begun V M)
  unfolding admitted
  begin state req =
      if req.method == "GET"
      then Partial.◌>>=◌ (observability_get env state req.path)
          (λ found. some (state, answered (or_not_found env found)))
      else if not (req.method == "POST")
      then some (state, answered (json_error env 405 method_not_allowed))
      else some (
          admitted state (env.http.remove "x-session-affinity" req.headers).1
            (admit env.semaphore state.budget req.declared_len))

  -- The body, the alias and its candidates, or an early return.
  unfoldable pub accept :
      AppState F V M S C H G
      → Result ReadFailure Bytes
      → Result (ℕ × Failure E) (RawBody R × String × List (ResolvedCandidate V M))
  unfolding body_of
  accept state read = do
    body ← body_of env state.budget.max_body_bytes read
    alias ← ok_or (get_as env.as_string body "model") (400, missing_model)
    candidates ←
        ok_or (get state.model_map alias) (400, unknown_alias alias (alias_names state.model_map))
    ok (body, alias, candidates)

  -- The drop of the permits that a request owns.
  unfoldable pub give_back : AppState F V M S C H G → ℕ → AppState F V M S C H G
  give_back state owned = record state { budget = release env.semaphore state.budget owned }

  unfoldable pub reject :
      AppState F V M S C H G → ℕ → ℕ × Failure E → AppState F V M S C H G × Routed V M
  unfolding give_back
  reject state owned (status, failure) =
      (give_back state owned, rejected (json_error env status failure))

  unfoldable pub dispatch :
      AppState F V M S C H G
      → ℕ
      → String
      → ResolvedCandidate V M
      → Bool
      → Result E (OutboundBody ℕ)
      → AppState F V M S C H G × Routed V M
  unfolding reject
  dispatch state owned alias c is_streaming (err e) = reject state owned (500, unserializable)
  dispatch state owned alias c is_streaming (ok outbound) = (
    state,
    forwarding
        (record { alias = alias; candidate = c; outbound = outbound; is_streaming = is_streaming }),
  )

  unfoldable pub send_to :
      AppState F V M S C H G
      → ℕ
      → RawBody R
      → String
      → Bool
      → Option (ResolvedCandidate V M)
      → AppState F V M S C H G × Routed V M
  unfolding dispatch
  send_to state owned body alias is_streaming none =
      reject state owned (502, no_healthy_candidate alias)
  send_to state owned body alias is_streaming (some c) =
      dispatch state owned alias c is_streaming
        (prepare_outbound env.json body c.model c.attribution_labels (some owned))

  unfoldable pub routed :
      AppState F V M S C H G
      → ℕ
      → Option V
      → Result (ℕ × Failure E) (RawBody R × String × List (ResolvedCandidate V M))
      → Option (AppState F V M S C H G × Routed V M)
  unfolding send_to
  routed state owned affinity (err early) = some (reject state owned early)
  routed state owned affinity (ok (body, alias, candidates)) =
      let stream = get_as env.as_bool body "stream" in
      Partial.◌>>=◌
        (choose alias candidates state.tracker state.rr_state state.exploit_k (latency_mode stream)
          (affinity_of env.http affinity))
        (λ (candidate, rr). some (
          send_to (record state { rr_state = rr }) owned body alias (unwrap_or stream false)
            candidate))

  unfoldable pub route :
      AppState F V M S C H G
      → ℕ
      → Option V
      → Result ReadFailure Bytes
      → Option (AppState F V M S C H G × Routed V M)
  unfolding routed accept
  route state owned affinity read = routed state owned affinity (accept state read)

  unfoldable pub finish :
      AppState F V M S C H G
      → Forwarding V M
      → Result (ForwardError E) (ProxyResult M)
      → Option (AppState F V M S C H G × Response M)
  unfolding report respond
  finish state f result =
      Partial.◌>>=◌ (record_result state.tracker f.candidate.stats_index result) (λ tracker. some (
        record state {
          tracker = tracker;
          metrics = report env state.metrics f.alias f.candidate result;
        },
        respond env f.candidate result,
      ))
