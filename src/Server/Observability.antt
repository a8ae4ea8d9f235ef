-- ===== src/Server/Observability.antt =====
-- The GET endpoints, and the handler of the observability listener. `none` stands for the panic of
-- an index out of bounds.
use sturnus.Prelude.{
  ℕ, Bool, not, ◌||◌, String, List, [], ◌∷◌, map, Option, none, some, contains, if◌then◌else◌, ◌==◌,
  nat_eq, string_eq, Result, ok, err,
}
use sturnus.Prelude.Partial.{◌>>=◌}
use sturnus.F64.{F64, u64_max, fone}
use sturnus.Candidate.{ResolvedCandidate}
use sturnus.Tracker.{Tracker, stats_at, ewma_ms, streaming, non_streaming, is_degraded}
use sturnus.ModelMap.{iter}
use sturnus.Server.{
  AppState, Env, Response, json_response, json_error, not_found, metrics_unencodable, left,
}

pub data Status : Type 0 where
  cold degraded warm : Status

-- `status`
abbrev pub status_text : Status → String
status_text cold = "cold"
status_text degraded = "degraded"
status_text warm = "warm"

-- A candidate on the status page.
pub record Entry (F : Type 0) : Type 0 where
  pub provider : String
  pub model : String
  pub status : Status
  pub streaming_ewma_ms : Option ℕ
  pub nonstreaming_ewma_ms : Option ℕ
  pub error_rate : F

-- `(x != u64::MAX).then_some(x)`
abbrev pub measured : ℕ → Option ℕ
measured x = if x == u64_max then none else some x

unfoldable pub classify : ℕ → ℕ → Bool → Status
classify streaming_ewma nonstreaming_ewma is_bad =
    if not (streaming_ewma == u64_max) || not (nonstreaming_ewma == u64_max)
    then (if is_bad then degraded else warm)
    else cold

module _ {F V M : Type 0} ⦃d : F64 F⦄ where
  -- The body of the loop for a slot that was not seen.
  unfoldable pub entry_of : Tracker F → ResolvedCandidate V M → Option (Entry F)
  unfolding classify
  entry_of t c = do
    stats ← stats_at t c.stats_index
    is_bad ← is_degraded t c.stats_index
    let streaming_ewma = ewma_ms stats streaming
    let nonstreaming_ewma = ewma_ms stats non_streaming
    some (record {
      provider = c.provider_name;
      model = c.model;
      status = classify streaming_ewma nonstreaming_ewma is_bad;
      streaming_ewma_ms = measured streaming_ewma;
      nonstreaming_ewma_ms = measured nonstreaming_ewma;
      error_rate = d.sub fone stats.success_rate;
    })

  -- The loop, with the slots seen.
  unfoldable pub entries_from :
      Tracker F → List ℕ → List (String × ResolvedCandidate V M) → Option (List (Entry F))
  unfolding entry_of
  entries_from t seen [] = some []
  entries_from t seen ((_, c) ∷ rest) =
      let known = contains seen c.stats_index in
      let later = entries_from t (if known then seen else c.stats_index ∷ seen) rest in
      if known then later else do entry ← entry_of t c; others ← later; some (entry ∷ others)

module _ {F V M S C H J R E : Type 0} ⦃d : F64 F⦄ (env : Env F V M S C H J R E) where
  abbrev or_null : Option ℕ → J
  or_null none = env.null
  or_null (some n) = env.number n

  -- The `json!` of a candidate.
  unfoldable pub entry_json : Entry F → J
  entry_json e = env.object (
      ("provider", env.json.string_value e.provider)
      ∷ ("model", env.json.string_value e.model)
      ∷ ("status", env.json.string_value (status_text e.status))
      ∷ ("streaming_ewma_ms", or_null e.streaming_ewma_ms)
      ∷ ("nonstreaming_ewma_ms", or_null e.nonstreaming_ewma_ms)
      ∷ ("error_rate", env.float e.error_rate)
      ∷ [])

  -- A new response has status 200.
  abbrev encoded : Result E (List ℕ) → Response M
  encoded (ok buf) = record {
    status = 200;
    headers =
        (env.http.insert "content-type" (env.from_static "text/plain; version=0.0.4; charset=utf-8")
          env.http.no_headers).0;
    body = left buf;
  }
  encoded (err e) = json_error env 500 metrics_unencodable

  abbrev pub or_not_found : Option (Response M) → Response M
  or_not_found (some response) = response
  or_not_found none = json_error env 404 not_found

  module _ {G : Type 0} where
    unfoldable pub build_status_response : AppState F V M S C H G → Option (Response M)
    unfolding entries_from entry_json
    build_status_response state = do
      candidates ← entries_from state.tracker [] (iter state.model_map)
      let body = env.object (("candidates", env.array (map entry_json candidates)) ∷ [])
      some (json_response env 200 (env.value_to_vec_pretty body))

    unfoldable pub encode_metrics_response : AppState F V M S C H G → Response M
    encode_metrics_response state = encoded (env.encode state.metrics)

    unfoldable pub health : AppState F V M S C H G → Response M
    health state =
        if state.shutting_down
        then json_response env 503 (env.utf8 "{\"status\":\"shutting_down\"}")
        else json_response env 200 (env.utf8 "{\"status\":\"ok\"}")

    -- `none` within is a path that is not observability's.
    unfoldable pub observability_get :
        AppState F V M S C H G → String → Option (Option (Response M))
    unfolding health build_status_response encode_metrics_response
    observability_get state path =
        if path == "/health" || path == "/healthz"
        then some (some (health state))
        else if path == "/status"
        then (do page ← build_status_response state; some (some page))
        else if path == "/metrics"
        then some (some (encode_metrics_response state))
        else some none

    unfoldable pub handle_observability_request :
        AppState F V M S C H G → String → String → Option (Response M)
    unfolding observability_get
    handle_observability_request state method path =
        if method == "GET"
        then (do found ← observability_get state path; some (or_not_found found))
        else some (json_error env 404 not_found)
