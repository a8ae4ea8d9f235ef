-- ===== src/Router/Sample.antt =====
-- Three candidates of an alias, and a tracker that has their slots.
use sturnus.Prelude.{ℕ, ◌<◌, refl, String, [], ◌∷◌, none, arith, nat_eq}
use sturnus.F64.{u64_max, u64_mod}
use sturnus.F64.Fixed.{Fixed, literal, fixed_f64}
use sturnus.Candidate.{ResolvedCandidate, api_key}
use sturnus.Tracker.{CandidateStats, Tracker}
use sturnus.Tracker.Invariant.{IsSound, IsValid}

abbrev pub candidate : String → ℕ → ResolvedCandidate String String
candidate name index = record {
  provider_name = name;
  model = "m";
  base_url = "http://localhost";
  api_key = none;
  kind = api_key;
  stats_index = index;
  provider_header = name;
  affinity_header = name;
  attribution_labels = none;
  extra_headers = "";
}

abbrev pub fast : ResolvedCandidate String String
fast = candidate "fast" 0

abbrev pub slow : ResolvedCandidate String String
slow = candidate "slow" 1

abbrev pub cold : ResolvedCandidate String String
cold = candidate "cold" 2

abbrev pub slot : ℕ → CandidateStats Fixed
slot ms = record {
  streaming_ewma_ms = ms;
  nonstreaming_ewma_ms = u64_max;
  success_rate = literal 1 0;
}

abbrev pub tracker : Tracker Fixed
tracker = record {
  stats = slot 100 ∷ slot 200 ∷ slot u64_max ∷ [];
  alpha = literal 3 1;
  error_threshold = literal 5 1;
}

pub tracker-IsValid : IsValid tracker
unfolding fixed_f64
tracker-IsValid = record {
  alpha_unit = (refl, refl);
  slots = (sound 100 (omega arith), (sound 200 (omega arith), (sound u64_max (omega arith), tt)));
}
  where
    sound : (ms : ℕ) → ms < u64_mod → IsSound (slot ms)
    sound ms h = record {
      rate_unit = (refl, refl);
      streaming_word = h;
      nonstreaming_word = omega arith;
    }
