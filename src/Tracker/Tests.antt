-- ===== src/Tracker/Tests.antt =====
-- Runs of the tracker over fixed-point numbers, and the theorems at inputs where they apply.
use sturnus.Prelude.{
  ◌^◌, ◌≤◌, ◌<◌, min, max, ◌≡◌, refl, true, false, none, some, List, [], ◌∷◌, arith, nat_eq,
  ℕ_discrete,
}
use sturnus.Prelude.Partial.{◌>>=◌}
use sturnus.F64.{u64_max}
use sturnus.F64.Fixed.{Fixed, literal, fixed_f64}
use sturnus.F64.FixedLaws.{fixed-IsIeee}
use sturnus.Tracker.{
  streaming, non_streaming, CandidateStats, Tracker, record_error, update_ewma, ewma_ms, is_cold,
  is_degraded,
}
use sturnus.Tracker.Averages.{update_ewma_blends}
use sturnus.Tracker.Invariant.{Event, registers, succeeds, fails, replay, IsValid, replay-IsValid}

-- The defaults of the configuration: `alpha` 0.3 and `error_threshold` 0.5.
abbrev fresh : Tracker Fixed
fresh = record { stats = []; alpha = literal 3 1; error_threshold = literal 5 1 }

abbrev warm : CandidateStats Fixed
warm = record {
  streaming_ewma_ms = 100;
  nonstreaming_ewma_ms = u64_max;
  success_rate = literal 1 0;
}

abbrev two_slots : Tracker Fixed
two_slots = record fresh { stats = warm ∷ warm ∷ [] }

ewma_tests :
    (ewma_ms (update_ewma warm streaming 200 (literal 3 1)) streaming ≡ 130)
    × (is_cold (update_ewma warm streaming 200 (literal 3 1)) non_streaming ≡ true)
    × (ewma_ms (update_ewma warm non_streaming 5000 (literal 3 1)) non_streaming ≡ 5000)
unfolding update_ewma fixed_f64 nat_eq is_cold ℕ_discrete
ewma_tests = (refl, refl, refl)

-- Two errors in a row degrade a candidate at the defaults, and one does not.
degraded_tests :
    ((record_error two_slots 0 >>= λ t. is_degraded t 0) ≡ some false)
    × ((record_error two_slots 0 >>= λ t. record_error t 0 >>= λ t'. is_degraded t' 0) ≡ some true)
    × (record_error two_slots 2 ≡ none)
unfolding record_error is_degraded fixed_f64
degraded_tests = (refl, refl, refl)

update_ewma_blends_example :
    (ewma_ms warm streaming ≡ u64_max
      → ewma_ms (update_ewma warm streaming 200 (literal 3 1)) streaming ≡ 200)
    × (ewma_ms warm streaming < 2 ^ 50
        → (min 200 (ewma_ms warm streaming)
            ≤ ewma_ms (update_ewma warm streaming 200 (literal 3 1)) streaming)
          × (ewma_ms (update_ewma warm streaming 200 (literal 3 1)) streaming
              ≤ max 200 (ewma_ms warm streaming)))
unfolding fixed_f64
update_ewma_blends_example =
    update_ewma_blends fixed-IsIeee warm streaming 200 (literal 3 1) (refl, refl) (omega arith)

abbrev history : List Event
history = registers ∷ succeeds 0 streaming 100_000_000 ∷ registers ∷ fails 1 ∷ fails 0 ∷ []

replay-IsValid_example : (t' : Tracker Fixed) × (replay fresh history ≡ some t') × IsValid t'
unfolding fixed_f64
replay-IsValid_example =
    replay-IsValid fixed-IsIeee fresh history (record { alpha_unit = (refl, refl); slots = tt })
      (omega arith)
