-- ===== src/Tracker/Invariant.antt =====
-- Every success rate stays between 0 and 1, and every latency average a 64-bit word.
use sturnus.Prelude.{
  ℕ, ◌<◌, ◌%◌, Bool-cases, inl, inr, ◌==◌, nat_eq, ◌≡◌, refl, Bool, true, false, Option, some, List,
  [], ◌∷◌, arith, length, modify, All, All-modify, All-append, length-modify, ◌+◌,
}
use sturnus.Prelude.Partial.{◌>>=◌}
use sturnus.F64.{F64, u64_max, u64_mod, IsIeee}
use sturnus.F64.Laws.{IsUnit, one-IsUnit}
use sturnus.Tracker.{
  LatencyMode, streaming, non_streaming, Duration, CandidateStats, Tracker, new_stats, register,
  record_success, record_error, update_ewma, record_outcome, blend_ewma, as_millis,
}
use sturnus.Tracker.Averages.{blend_outcome-IsUnit}
use sturnus.Tracker.Slots.{length-register, success_change, record_success-some, record_error-some}

module _ {F : Type 0} ⦃d : F64 F⦄ where
  pub record IsSound (s : CandidateStats F) : Type 0 where
    pub rate_unit : IsUnit s.success_rate
    pub streaming_word : s.streaming_ewma_ms < u64_mod
    pub nonstreaming_word : s.nonstreaming_ewma_ms < u64_mod

  pub record IsValid (t : Tracker F) : Type 0 where
    pub alpha_unit : IsUnit t.alpha
    pub slots : All IsSound t.stats

-- What happens to a tracker: slots are registered, and responses are recorded.
pub data Event : Type 0 where
  registers : Event
  succeeds : ℕ → LatencyMode → Duration → Event
  fails : ℕ → Event

module _ {F : Type 0} ⦃d : F64 F⦄ where
  unfoldable pub happen : Tracker F → Event → Option (Tracker F)
  happen t registers = some (register t).0
  happen t (succeeds index mode observed) = record_success t index mode observed
  happen t (fails index) = record_error t index

  unfoldable pub replay : Tracker F → List Event → Option (Tracker F)
  unfolding happen
  replay t [] = some t
  replay t (e ∷ es) = happen t e >>= λ t'. replay t' es

-- The events refer to slots that exist when they happen, of which there are `n` at the start.
abbrev pub Fits : ℕ → List Event → Type 0
Fits n [] = Unit
Fits n (registers ∷ es) = Fits (n + 1) es
Fits n (succeeds index mode observed ∷ es) = (index < n) × Fits n es
Fits n (fails index ∷ es) = (index < n) × Fits n es

module _ {F : Type 0} ⦃d : F64 F⦄ (ieee : IsIeee F) where
  record_outcome-IsSound :
      (success : Bool) (alpha : F) (s : CandidateStats F)
      → IsUnit alpha
      → IsSound s
      → IsSound (record_outcome s success alpha)
  unfolding record_outcome
  record_outcome-IsSound success alpha s u v = record {
    rate_unit = blend_outcome-IsUnit ieee success alpha s.success_rate u v.rate_unit;
    streaming_word = v.streaming_word;
    nonstreaming_word = v.nonstreaming_word;
  }

  blend_ewma-lt : (ms : ℕ) (alpha : F) (old : ℕ) → ms < u64_mod → blend_ewma ms alpha old < u64_mod
  unfolding blend_ewma
  blend_ewma-lt ms alpha old h = elim (Bool-cases (old == u64_max)) [
    | inl cold ↦ rw cold h
    | inr warm ↦ rw warm (ieee.to_u64-lt _)
  ]

  update_ewma-IsSound :
      (s : CandidateStats F) (mode : LatencyMode) (ms : ℕ) (alpha : F)
      → ms < u64_mod
      → IsSound s
      → IsSound (update_ewma s mode ms alpha)
  unfolding update_ewma
  update_ewma-IsSound s streaming ms alpha h v = record {
    rate_unit = v.rate_unit;
    streaming_word = blend_ewma-lt ms alpha _ h;
    nonstreaming_word = v.nonstreaming_word;
  }
  update_ewma-IsSound s non_streaming ms alpha h v = record {
    rate_unit = v.rate_unit;
    streaming_word = v.streaming_word;
    nonstreaming_word = blend_ewma-lt ms alpha _ h;
  }

  success_change-IsSound :
      (alpha : F) (mode : LatencyMode) (observed : Duration) (s : CandidateStats F)
      → IsUnit alpha
      → IsSound s
      → IsSound (success_change alpha mode observed s)
  unfolding success_change
  success_change-IsSound alpha mode observed s u v =
      record_outcome-IsSound true alpha _ u
        (update_ewma-IsSound s mode (as_millis observed % u64_mod) alpha (omega arith) v)

  new_stats-IsSound : IsSound {F = F} new_stats
  unfolding new_stats
  new_stats-IsSound = record {
    rate_unit = one-IsUnit ieee;
    streaming_word = omega arith;
    nonstreaming_word = omega arith;
  }

  pub register-IsValid : (t : Tracker F) → IsValid t → IsValid (register t).0
  unfolding register
  register-IsValid t v = record {
    alpha_unit = v.alpha_unit;
    slots = All-append IsSound t.stats _ v.slots (new_stats-IsSound, tt);
  }

  pub happen-IsValid :
      (t : Tracker F) (n : ℕ) (e : Event) (es : List Event)
      → length t.stats ≡ n
      → IsValid t
      → Fits n (e ∷ es)
      → (t' : Tracker F) × (happen t e ≡ some t') × IsValid t' × Fits (length t'.stats) es
  unfolding happen
  happen-IsValid t n registers es h v fits =
      ((register t).0, refl, register-IsValid t v, rw (length-register t, h) fits)
  happen-IsValid t n (succeeds index mode observed) es h v (lt, fits) = (
    record t { stats = modify index (success_change t.alpha mode observed) t.stats },
    record_success-some t index mode observed (omega arith),
    record {
      alpha_unit = v.alpha_unit;
      slots =
          All-modify IsSound index _ t.stats
            (λ s. success_change-IsSound t.alpha mode observed s v.alpha_unit) v.slots;
    },
    rw (length-modify index (success_change t.alpha mode observed) t.stats, h) fits,
  )
  happen-IsValid t n (fails index) es h v (lt, fits) = (
    record t { stats = modify index (λ s. record_outcome s false t.alpha) t.stats },
    record_error-some t index (omega arith),
    record {
      alpha_unit = v.alpha_unit;
      slots =
          All-modify IsSound index _ t.stats
            (λ s. record_outcome-IsSound false t.alpha s v.alpha_unit) v.slots;
    },
    rw (length-modify index (λ s. record_outcome s false t.alpha) t.stats, h) fits,
  )

  -- From a valid tracker, whatever is registered and recorded at slots that exist, nothing panics, every success rate
  -- and `alpha` stay between 0 and 1, and the latency averages stay 64-bit words.
  pub replay-IsValid :
      (t : Tracker F) (es : List Event)
      → IsValid t
      → Fits (length t.stats) es
      → (t' : Tracker F) × (replay t es ≡ some t') × IsValid t'
  unfolding replay
  replay-IsValid t [] v fits = (t, refl, v)
  replay-IsValid t (e ∷ es) v fits =
      let (t', now, v', fits') = happen-IsValid t (length t.stats) e es refl v fits in
      let (t'', later, v'') = replay-IsValid t' es v' fits' in (t'', rw now later, v'')
