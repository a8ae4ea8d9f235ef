-- ===== src/Tracker.antt =====
-- src/tracker.rs: latency and success-rate averages, one slot for each candidate.
-- An atomic is its value, since each operation is one atomic read or `fetch_update`; the bits of
-- `success_rate` are the number that they encode. `none` stands for the panic of an index out of
-- bounds. A `Duration` is its nanoseconds.
pub mod Averages
pub mod Slots
pub mod Invariant
pub mod Tests
use sturnus.Prelude.{
  ℕ, ◌+◌, ◌/◌, ◌%◌, ◌^◌, Bool, Option, none, some, String, List, [], ◌∷◌, ◌++◌, length, get_elem?,
  modify, if◌then◌else◌, ◌==◌, nat_eq, ltb, true, false,
}
use sturnus.Prelude.Partial.{◌>>=◌}
use sturnus.F64.{F64, fzero, fone, u64_max, u64_mod}

pub data LatencyMode : Type 0 where
  streaming non_streaming : LatencyMode

unfoldable pub as_str : LatencyMode → String
as_str streaming = "streaming"
as_str non_streaming = "nonstreaming"

pub record CandidateStats (F : Type 0) : Type 0 where
  pub streaming_ewma_ms : ℕ
  pub nonstreaming_ewma_ms : ℕ
  pub success_rate : F

pub record Tracker (F : Type 0) : Type 0 where
  pub stats : List (CandidateStats F)
  pub alpha : F
  pub error_threshold : F

abbrev pub Duration : Type 0
Duration = ℕ

abbrev pub as_millis : Duration → ℕ
as_millis d = d / 1_000_000

module _ {F : Type 0} where
  unfoldable pub ewma_ms : CandidateStats F → LatencyMode → ℕ
  ewma_ms s streaming = s.streaming_ewma_ms
  ewma_ms s non_streaming = s.nonstreaming_ewma_ms

  -- A store to the field that `ewma_field` returns.
  unfoldable pub set_ewma_field : CandidateStats F → LatencyMode → ℕ → CandidateStats F
  set_ewma_field s streaming n = record s { streaming_ewma_ms = n }
  set_ewma_field s non_streaming n = record s { nonstreaming_ewma_ms = n }

  unfoldable pub is_cold : CandidateStats F → LatencyMode → Bool
  unfolding ewma_ms
  is_cold s mode = ewma_ms s mode == u64_max

  unfoldable pub stats_at : Tracker F → ℕ → Option (CandidateStats F)
  stats_at t index = get_elem? t.stats index

module _ {F : Type 0} ⦃d : F64 F⦄ where
  open d use {add, sub, mul, round, of_u64, to_u64, lt}

  unfoldable pub new_stats : CandidateStats F
  new_stats = record {
    streaming_ewma_ms = u64_max;
    nonstreaming_ewma_ms = u64_max;
    success_rate = fone;
  }

  -- The closure of `record_outcome`.
  unfoldable pub blend_outcome : Bool → F → F → F
  blend_outcome success alpha current =
      let sample = if success then fone else fzero in
      add (mul alpha sample) (mul (sub fone alpha) current)

  unfoldable pub record_outcome : CandidateStats F → Bool → F → CandidateStats F
  unfolding blend_outcome
  record_outcome s success alpha = record s {
    success_rate = blend_outcome success alpha s.success_rate;
  }

  -- The closure of `update_ewma`.
  unfoldable pub blend_ewma : ℕ → F → ℕ → ℕ
  blend_ewma observed_ms alpha old =
      if old == u64_max
      then observed_ms
      else to_u64 (round (add (mul alpha (of_u64 observed_ms)) (mul (sub fone alpha) (of_u64 old))))

  unfoldable pub update_ewma : CandidateStats F → LatencyMode → ℕ → F → CandidateStats F
  unfolding blend_ewma ewma_ms set_ewma_field
  update_ewma s mode observed_ms alpha =
      set_ewma_field s mode (blend_ewma observed_ms alpha (ewma_ms s mode))

  unfoldable pub new_tracker : F → F → Tracker F
  new_tracker alpha error_threshold = record {
    stats = [];
    alpha = alpha;
    error_threshold = error_threshold;
  }

  unfoldable pub register : Tracker F → Tracker F × ℕ
  unfolding new_stats
  register t = (record t { stats = t.stats ++ new_stats ∷ [] }, length t.stats)

  -- `self.stats[index]`, changed in place.
  at_index : Tracker F → ℕ → (CandidateStats F → CandidateStats F) → Option (Tracker F)
  at_index t index f =
      if ltb index (length t.stats)
      then some (record t { stats = modify index f t.stats })
      else none

  unfoldable pub record_success : Tracker F → ℕ → LatencyMode → Duration → Option (Tracker F)
  unfolding at_index update_ewma record_outcome
  record_success t index mode observed =
      let ms : ℕ = as_millis observed % u64_mod in
      do
        t' ← at_index t index (λ s. update_ewma s mode ms t.alpha)
        at_index t' index (λ s. record_outcome s true t.alpha)

  unfoldable pub record_error : Tracker F → ℕ → Option (Tracker F)
  unfolding at_index record_outcome
  record_error t index = at_index t index (λ s. record_outcome s false t.alpha)

  unfoldable pub is_degraded : Tracker F → ℕ → Option Bool
  unfolding stats_at
  is_degraded t index = do
    s ← stats_at t index
    some (lt t.error_threshold (sub fone s.success_rate))
