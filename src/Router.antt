-- ===== src/Router.antt =====
-- src/router.rs: the choice of a candidate by effective latency, and the counters of the schedule.
-- A counter is its value, since `fetch_add` is one atomic step; `usize` has 64 bits. The outer
-- `none` of a result stands for a panic: an index that the tracker lacks.
pub mod Weights
pub mod Weighing
pub mod Best
pub mod Weyl
pub mod Pick
pub mod Selection
pub mod Sample
pub mod Tests
use sturnus.Prelude.{
  ℕ, zero, suc, ◌+◌, ◌*◌, ◌/◌, ◌%◌, ◌^◌, max, Bool, true, false, Option, none, some, String, List,
  [], ◌∷◌, if◌then◌else◌, ltb, string_eq,
}
use sturnus.Prelude.Partial.{◌>>=◌, traverse}
use sturnus.Prelude.Dict.{Dict, lookup, contains_key, insert}
use sturnus.F64.{F64, u64_mod}
use sturnus.Candidate.{ResolvedCandidate}
use sturnus.Tracker.{LatencyMode, CandidateStats, Tracker, stats_at, is_cold, ewma_ms}

pub record RoundRobinState : Type 0 where
  pub counters : Dict String ℕ

unfoldable pub new_rr : RoundRobinState
new_rr = record { counters = [] }

unfoldable pub register_alias : RoundRobinState → String → RoundRobinState
unfolding contains_key insert
register_alias rr alias =
    if contains_key alias rr.counters then rr else record { counters = insert alias 0 rr.counters }

-- The tick, and the state with the counter moved on.
unfoldable pub next_tick : RoundRobinState → String → ℕ × RoundRobinState
unfolding lookup insert
next_tick rr alias = elim (lookup alias rr.counters) [
  | none ↦ (0, rr)
  | some c ↦ (c, record { counters = insert alias ((c + 1) % u64_mod) rr.counters })
]

abbrev pub weyl_step : ℕ
weyl_step = 0x9E37_79B9_7F4A_7C15

-- `n.wrapping_mul(WEYL_STEP)`
unfoldable pub spread_of : ℕ → ℕ
spread_of n = n * weyl_step % u64_mod

-- `((u128::from(spread) * total as u128) >> 64) as usize`; the product fits in 128 bits.
unfoldable pub position : ℕ → ℕ → ℕ
position spread total = spread * total / 2 ^ 64 % u64_mod

-- The loop over `weighted`, with the last candidate as the fallback.
unfoldable pub pick {ℓ} : {C : Type ℓ} → ℕ → ℕ → Option C → List (C × ℕ) → Option C
pick pos acc last [] = last
pick pos acc last ((c, w) ∷ rest) =
    let acc' = (acc + w) % u64_mod in
    let later = pick pos acc' (some c) rest in if ltb pos acc' then some c else later

-- `total += weight`
unfoldable pub total_of {ℓ} : {C : Type ℓ} → ℕ → List (C × ℕ) → ℕ
total_of total [] = total
total_of total ((c, w) ∷ rest) = total_of ((total + w) % u64_mod) rest

module _ {F : Type 0} ⦃d : F64 F⦄ where
  open d use {decimal, infinity, of_u64, mul, div, powf, fmin, fmax, round, to_u64, is_finite}

  abbrev pub exploit_k : F
  exploit_k = decimal 3 0

  abbrev pub weight_resolution : F
  weight_resolution = decimal 1000 0

  abbrev pub cold_probe_weight : F
  cold_probe_weight = decimal 25 2

  abbrev pub probe_floor : F
  probe_floor = decimal 1 2

  abbrev pub min_success_rate : F
  min_success_rate = decimal 1 3

  unfoldable pub effective_latency : CandidateStats F → LatencyMode → Option F
  unfolding is_cold ewma_ms
  effective_latency s mode =
      if is_cold s mode
      then none
      else some (div (of_u64 (max (ewma_ms s mode) 1)) (fmax s.success_rate min_success_rate))

  -- `effective.iter().flatten().copied().fold(f64::INFINITY, f64::min)`
  unfoldable pub best_from : F → List (Option F) → F
  best_from acc [] = acc
  best_from acc (none ∷ rest) = best_from acc rest
  best_from acc (some latency ∷ rest) = best_from (fmin acc latency) rest

  unfoldable pub raw_weight : F → F → Option F → F → F
  raw_weight best k (some latency) rate = powf (div best latency) k
  raw_weight best k none rate =
      mul (if is_finite best then cold_probe_weight else decimal 1 0)
        (powf (fmax rate min_success_rate) k)

  unfoldable pub weight_of : F → ℕ
  weight_of raw =
      to_u64 (fmax (round (mul raw weight_resolution)) (mul weight_resolution probe_floor))

  module _ {V M : Type 0} where
    unfoldable pub effectives :
        Tracker F → LatencyMode → List (ResolvedCandidate V M) → Option (List (Option F))
    unfolding stats_at effective_latency
    effectives t mode =
        traverse λ c. do s ← stats_at t c.stats_index; some (effective_latency s mode)

    -- The loop that fills `weighted`, over the candidates zipped with their effective latencies.
    unfoldable pub weigh :
        Tracker F
        → F
        → F
        → List (ResolvedCandidate V M)
        → List (Option F)
        → Option (List (ResolvedCandidate V M × ℕ))
    unfolding stats_at raw_weight weight_of
    weigh t best k (c ∷ cs) (e ∷ es) = do
      s ← stats_at t c.stats_index
      rest ← weigh t best k cs es
      some ((c, weight_of (raw_weight best k e s.success_rate)) ∷ rest)
    weigh t best k _ _ = some []

    -- Everything before the tick.
    unfoldable pub weighted :
        Tracker F
        → F
        → LatencyMode
        → List (ResolvedCandidate V M)
        → Option (List (ResolvedCandidate V M × ℕ))
    unfolding effectives weigh best_from
    weighted t k mode candidates = do
      effective ← effectives t mode candidates
      weigh t (best_from infinity effective) k candidates effective

    unfoldable pub select_candidate :
        String
        → List (ResolvedCandidate V M)
        → Tracker F
        → RoundRobinState
        → F
        → LatencyMode
        → Option (Option (ResolvedCandidate V M) × RoundRobinState)
    unfolding weighted next_tick spread_of position pick total_of
    select_candidate alias [] t rr k mode = some (none, rr)
    select_candidate alias (c ∷ cs) t rr k mode = do
      entries ← weighted t k mode (c ∷ cs)
      let (tick, rr') = next_tick rr alias
      let pos = position (spread_of tick) (total_of 0 entries)
      some (pick pos 0 none entries, rr')
