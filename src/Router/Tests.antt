-- ===== src/Router/Tests.antt =====
-- Runs of the router over fixed-point numbers, and the theorems at inputs where they apply.
use sturnus.Prelude.{
  ℕ, ◌+◌, ◌*◌, ◌^◌, ◌≤◌, ◌<◌, ◌≡◌, refl, none, some, List, [], ◌∷◌, arith, nat_eq, string_eq,
  ℕ_discrete, get_elem?, All, String,
}
use sturnus.F64.{u64_mod}
use sturnus.F64.Fixed.{fixed_f64}
use sturnus.F64.FixedLaws.{fixed-IsIeee}
use sturnus.Candidate.{ResolvedCandidate}
use sturnus.Tracker.{streaming, non_streaming}
use sturnus.Router.{
  RoundRobinState, new_rr, register_alias, next_tick, spread_of, weighted, select_candidate,
  exploit_k,
}
use sturnus.Router.Sample.{fast, slow, cold, tracker, tracker-IsValid}
use sturnus.Router.Weyl.{tick_of, spread_of-bijective}
use sturnus.Router.Weighing.{InBounds, sum_weights}
use sturnus.Router.Pick.{before}
use sturnus.Router.Selection.{select_candidate-total, select_candidate_reaches}

-- Twice the latency has an eighth of the weight, and no data a quarter; with no data at all, and
-- full success rates, the weights are equal.
weights_test :
    (weighted tracker exploit_k streaming (fast ∷ slow ∷ cold ∷ [])
      ≡ some ((fast, 1000) ∷ (slow, 125) ∷ (cold, 250) ∷ []))
    × (weighted tracker exploit_k non_streaming (fast ∷ slow ∷ [])
        ≡ some ((fast, 1000) ∷ (slow, 1000) ∷ []))
unfolding weighted fixed_f64 nat_eq ℕ_discrete
weights_test = (refl, refl)

abbrev counted : RoundRobinState
counted = record { counters = ("chat", 1) ∷ [] }

select_tests :
    (select_candidate "chat" (fast ∷ slow ∷ cold ∷ []) tracker counted exploit_k streaming
      ≡ some (some fast, record { counters = ("chat", 2) ∷ [] }))
    × (select_candidate {V = String} {M = String} "chat" [] tracker counted exploit_k streaming
        ≡ some (none, counted))
    × (register_alias new_rr "chat" ≡ record { counters = ("chat", 0) ∷ [] })
unfolding select_candidate fixed_f64 nat_eq string_eq ℕ_discrete register_alias new_rr
select_tests = (refl, refl, refl)

spread_of-bijective_example :
    (tick_of (spread_of 5) ≡ 5)
    × (spread_of (tick_of 5) ≡ 5)
    × (spread_of 5 < u64_mod)
    × (tick_of 5 < u64_mod)
spread_of-bijective_example = spread_of-bijective 5 (omega arith)

select_candidate-total_example :
    (i : ℕ) × (chosen : ResolvedCandidate String String) × (ws : List
      (ResolvedCandidate String String × ℕ))
    × (w : ℕ) × (select_candidate "chat" (fast ∷ slow ∷ []) tracker counted exploit_k streaming
        ≡ some (some chosen, (next_tick counted "chat").1))
    × (get_elem? (fast ∷ slow ∷ []) i ≡ some chosen)
    × (weighted tracker exploit_k streaming (fast ∷ slow ∷ []) ≡ some ws)
    × (get_elem? ws i ≡ some (chosen, w))
    × All InBounds ws
    × (before ws i * 2 ^ 64 ≤ spread_of (next_tick counted "chat").0 * sum_weights ws)
    × (spread_of (next_tick counted "chat").0 * sum_weights ws < (before ws i + w) * 2 ^ 64)
unfolding fixed_f64
select_candidate-total_example =
    select_candidate-total fixed-IsIeee tracker tracker-IsValid exploit_k refl streaming fast
      (slow ∷ []) (omega arith) (omega arith) "chat" counted

select_candidate_reaches_example :
    (n : ℕ) × (n < u64_mod)
    × ((alias : String) (rr : RoundRobinState)
        → (next_tick rr alias).0 ≡ n
        → select_candidate alias (fast ∷ slow ∷ []) tracker rr exploit_k streaming
          ≡ some (some slow, (next_tick rr alias).1))
unfolding fixed_f64
select_candidate_reaches_example =
    select_candidate_reaches fixed-IsIeee tracker tracker-IsValid exploit_k refl streaming fast
      (slow ∷ []) (omega arith) (omega arith) 1 slow refl
