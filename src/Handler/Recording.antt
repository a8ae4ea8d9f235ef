-- ===== src/Handler/Recording.antt =====
-- What the tracker learns from a request.
use sturnus.Prelude.{
  ℕ, ◌%◌, ◌≡◌, ◌≢◌, true, false, Bool-cases, inl, inr, Option, some, get_elem?-lt,
  get_elem?-modify_self, get_elem?-modify_ne, if◌then◌else◌, Result, ok, err,
}
use sturnus.F64.{F64, u64_mod}
use sturnus.Tracker.{
  LatencyMode, streaming, non_streaming, CandidateStats, Tracker, Duration, as_millis, stats_at,
  update_ewma, record_outcome, record_success, record_error,
}
use sturnus.Tracker.Slots.{record_success_frame, record_error-some}
use sturnus.Proxy.Request.{UpstreamLatency, ttfc, total, ProxyResult, ForwardError}
use sturnus.Handler.{is_success, observed, record_result}

module _ {F : Type 0} ⦃d : F64 F⦄ where
  blended : F → LatencyMode → Duration → CandidateStats F → CandidateStats F
  blended alpha mode latency s =
      record_outcome (update_ewma s mode (as_millis latency % u64_mod) alpha) true alpha

  -- A slot after a success: the time to the first chunk for a stream, else the whole time.
  unfoldable succeeded : F → UpstreamLatency → CandidateStats F → CandidateStats F
  unfolding blended
  succeeded alpha (ttfc latency) s = blended alpha streaming latency s
  succeeded alpha (total latency) s = blended alpha non_streaming latency s

  -- A slot after a result.
  unfoldable pub learned :
      {M E : Type 0}
      → F
      → Result (ForwardError E) (ProxyResult M)
      → CandidateStats F
      → CandidateStats F
  unfolding succeeded
  learned alpha (err e) s = record_outcome s false alpha
  learned alpha (ok r) s =
      if is_success r.status then succeeded alpha r.latency s else record_outcome s false alpha

  -- At a slot that exists, a result is recorded without a panic, and in no other slot.
  abbrev pub Records : Tracker F → ℕ → CandidateStats F → Option (Tracker F) → Type 0
  Records t index s r =
      (t' : Tracker F) × (r ≡ some t')
      × (stats_at t' index ≡ some s)
      × ((other : ℕ) → index ≢ other → stats_at t' other ≡ stats_at t other)

  error-Records :
      (t : Tracker F) (index : ℕ) (s : CandidateStats F)
      → stats_at t index ≡ some s
      → Records t index (record_outcome s false t.alpha) (record_error t index)
  unfolding stats_at
  error-Records t index s e = (
    _,
    record_error-some t index (get_elem?-lt t.stats index e),
    get_elem?-modify_self index (λ s. record_outcome s false t.alpha) t.stats e,
    λ other h. get_elem?-modify_ne index other (λ s. record_outcome s false t.alpha) t.stats h,
  )

  success-Records :
      (t : Tracker F) (index status : ℕ) (l : UpstreamLatency) (s : CandidateStats F)
      → stats_at t index ≡ some s
      → Records t index
          (if is_success status then succeeded t.alpha l s else record_outcome s false t.alpha)
          (if is_success status
            then record_success t index (observed l).0 (observed l).1
            else record_error t index)
  unfolding observed succeeded blended
  success-Records t index status l s e = elim (Bool-cases (is_success status)) [
    | inl good ↦ rw good (measured l)
    | inr bad ↦ rw bad (error-Records t index s e)
  ]
    where
      measured :
          (l : UpstreamLatency)
          → Records t index
              (succeeded t.alpha l s)
              (record_success t index (observed l).0 (observed l).1)
      measured (ttfc latency) = record_success_frame t index streaming latency s e
      measured (total latency) = record_success_frame t index non_streaming latency s e

  -- A result at a slot that exists is recorded without a panic and in no other slot: a 2xx response
  -- blends the latency into the average of the mode that was measured, by the time to the first
  -- chunk for a stream and the whole time otherwise, and counts as a success; any other response
  -- and every failure count as an error and leave both averages.
  pub record_result_lem :
      {M E : Type 0} (t : Tracker F) (index : ℕ) (s : CandidateStats F)
      (result : Result (ForwardError E) (ProxyResult M))
      → stats_at t index ≡ some s
      → Records t index (learned t.alpha result s) (record_result t index result)
  unfolding record_result learned
  record_result_lem t index s (err e) at = error-Records t index s at
  record_result_lem t index s (ok r) at = success-Records t index r.status r.latency s at
