-- ===== src/Router/Selection.antt =====
-- `select_candidate` as a whole.
use sturnus.Prelude.{
  ℕ, zero, suc, ◌+◌, ◌*◌, ◌%◌, ◌^◌, ◌≤◌, ◌<◌, ◌≡◌, refl, sym, ap, subst, ◌∙◌, ◌≢◌, String, Option,
  none, some, List, [], ◌∷◌, arith, get_elem?, length, All, All-get_elem?, string_eq,
}
use sturnus.Prelude.Dict.{lookup, lookup-insert_self, lookup-insert_ne}
use sturnus.F64.{F64, ◌≼◌, fzero, u64_mod, IsIeee}
use sturnus.Candidate.{ResolvedCandidate}
use sturnus.Tracker.{LatencyMode, Tracker}
use sturnus.Tracker.Invariant.{IsValid}
use sturnus.Router.{
  RoundRobinState, next_tick, spread_of, position, pick, total_of, weighted, select_candidate,
}
use sturnus.Router.Weighing.{
  Registered, InBounds, firsts, sum_weights, length-firsts, sum_weights_bounds, total_of-eq-sum,
  weighted-total,
}
use sturnus.Router.Weyl.{position_between, tick_for}
use sturnus.Router.Pick.{before, before-le, pick_part, pick_total}

module _ {ℓ} {C : Type ℓ} where
  get_elem?-firsts :
      (ws : List (C × ℕ)) (i : ℕ) {c : C} {w : ℕ}
      → get_elem? ws i ≡ some (c, w)
      → get_elem? (firsts ws) i ≡ some c
  get_elem?-firsts [] i e = cc
  get_elem?-firsts ((c, w) ∷ ws) zero e = cc
  get_elem?-firsts ((c, w) ∷ ws) (suc i) e = get_elem?-firsts ws i e

  firsts-get_elem? :
      (ws : List (C × ℕ)) (i : ℕ) {c : C}
      → get_elem? (firsts ws) i ≡ some c
      → (w : ℕ) × (get_elem? ws i ≡ some (c, w))
  firsts-get_elem? [] i e = cc
  firsts-get_elem? ((c, w) ∷ ws) zero e = (w, ground arith)
  firsts-get_elem? ((c, w) ∷ ws) (suc i) e = firsts-get_elem? ws i e

-- The tick of an alias is its counter, which then moves on by one modulo 2^64; the counters of
-- other aliases, and the state where the alias is unknown, stay.
pub next_tick_lem :
    (rr : RoundRobinState) (alias : String)
    → (lookup alias rr.counters ≡ none → next_tick rr alias ≡ (0, rr))
      × ((n : ℕ)
          → lookup alias rr.counters ≡ some n
          → ((next_tick rr alias).0 ≡ n)
            × (lookup alias (next_tick rr alias).1.counters ≡ some ((n + 1) % u64_mod))
            × ((other : String)
                → alias ≢ other
                → lookup other (next_tick rr alias).1.counters ≡ lookup other rr.counters))
unfolding next_tick
next_tick_lem rr alias = (
  λ e. rw (e, next_tick) refl,
  λ n e.
      rw (e, next_tick)
        (
          refl,
          lookup-insert_self alias ((n + 1) % u64_mod) rr.counters,
          λ other h. lookup-insert_ne alias other ((n + 1) % u64_mod) rr.counters h,
        ),
)

module _ {F : Type 0} ⦃d : F64 F⦄ (ieee : IsIeee F) {V M : Type 0} (t : Tracker F) (v : IsValid t)
    (k : F) (k_nonneg : fzero ≼ k) (mode : LatencyMode) (c : ResolvedCandidate V M)
    (cs : List (ResolvedCandidate V M)) (registered : Registered t (c ∷ cs))
    (few : 1000 * length (c ∷ cs) < u64_mod) where
  -- The weights of the candidates, in order: each between 10 and 1000.
  weights :
      (ws : List (ResolvedCandidate V M × ℕ)) × (weighted t k mode (c ∷ cs) ≡ some ws)
      × (firsts ws ≡ c ∷ cs)
      × All InBounds ws
  weights = weighted-total ieee t v k k_nonneg mode (c ∷ cs) registered

  total_facts :
      (0 < sum_weights weights.0)
      × (sum_weights weights.0 < u64_mod)
      × (total_of 0 weights.0 ≡ sum_weights weights.0)
  total_facts =
      let (ws, _, same, bounds) = weights in
      let len : length ws ≡ length (c ∷ cs) = sym (length-firsts ws) ∙ ap length same in
      let b = sum_weights_bounds ws bounds in
      let small : sum_weights ws < u64_mod = omega (arith, b.1, len) in
      (omega (arith, b.0, len), small, total_of-eq-sum 0 ws (omega (arith, small)) ∙ omega arith)

  pick_at : ℕ → Option (ResolvedCandidate V M)
  pick_at tick = pick (position (spread_of tick) (sum_weights weights.0)) 0 none weights.0

  select-pick_at :
      (alias : String) (rr : RoundRobinState)
      → select_candidate alias (c ∷ cs) t rr k mode
        ≡ some (pick_at (next_tick rr alias).0, (next_tick rr alias).1)
  unfolding select_candidate pick_at
  select-pick_at alias rr = rw (select_candidate, weights.1, total_facts.2) refl

  spread-lt : (n : ℕ) → spread_of n < u64_mod
  unfolding spread_of
  spread-lt n = omega arith

  -- With registered candidates, at least one and no more than 2^64 / 1000, a valid tracker and an
  -- exponent of 0 or more, the
  -- router never panics and never comes back empty: it returns one of the candidates, through the
  -- part of the line that its weight covers, and moves the alias's counter by one tick.
  pub select_candidate-total :
      (alias : String) (rr : RoundRobinState)
      → (i : ℕ) × (chosen : ResolvedCandidate V M) × (ws : List (ResolvedCandidate V M × ℕ))
        × (w : ℕ) × (select_candidate alias (c ∷ cs) t rr k mode
            ≡ some (some chosen, (next_tick rr alias).1))
        × (get_elem? (c ∷ cs) i ≡ some chosen)
        × (weighted t k mode (c ∷ cs) ≡ some ws)
        × (get_elem? ws i ≡ some (chosen, w))
        × All InBounds ws
        × (before ws i * 2 ^ 64 ≤ spread_of (next_tick rr alias).0 * sum_weights ws)
        × (spread_of (next_tick rr alias).0 * sum_weights ws < (before ws i + w) * 2 ^ 64)
  unfolding pick_at
  select_candidate-total alias rr =
      let (ws, weq, same, bounds) = weights in
      let (pos, small, total) = total_facts in
      let x : ℕ = spread_of (next_tick rr alias).0 in
      let p = position_between x (sum_weights ws) (spread-lt _) small pos in
      let (i, chosen, w, at, picked, lo, hi) =
        pick_total ws (position x (sum_weights ws)) 0 none (omega arith) (omega arith)
          (omega (arith, p.0)) in
      (
        i,
        chosen,
        ws,
        w,
        select-pick_at alias rr ∙ ap (λ o. some (o, (next_tick rr alias).1)) picked,
        subst (λ l. get_elem? l i ≡ some chosen) same (get_elem?-firsts ws i at),
        weq,
        at,
        bounds,
        omega (arith, p.1, lo),
        omega (arith, p.2, hi),
      )

  -- With registered candidates, no more than 2^64 / 1000, a valid tracker and an exponent of 0 or
  -- more, no candidate starves: each is picked at some value of the alias's counter, whatever the
  -- rest of the state.
  pub select_candidate_reaches :
      (i : ℕ) (chosen : ResolvedCandidate V M)
      → get_elem? (c ∷ cs) i ≡ some chosen
      → (n : ℕ) × (n < u64_mod)
        × ((alias : String) (rr : RoundRobinState)
            → (next_tick rr alias).0 ≡ n
            → select_candidate alias (c ∷ cs) t rr k mode
              ≡ some (some chosen, (next_tick rr alias).1))
  unfolding pick_at
  select_candidate_reaches i chosen e =
      let (ws, weq, same, bounds) = weights in
      let (pos, small, total) = total_facts in
      let (w, at) = firsts-get_elem? ws i (subst (λ l. get_elem? l i ≡ some chosen) (sym same) e) in
      let heavy : 10 ≤ w = (All-get_elem? InBounds ws i bounds at).0 in
      let room = before-le ws i at in
      let (n, word, hits) = tick_for (before ws i) (sum_weights ws) pos small (omega arith) in
      (
        n,
        word,
        λ alias rr tick.
            select-pick_at alias rr
            ∙ ap (λ o. some (o, (next_tick rr alias).1))
                (ap pick_at tick
                  ∙ pick_part ws i (position (spread_of n) (sum_weights ws)) 0 none at (omega arith)
                      (omega (arith, hits)) (omega (arith, hits))),
      )
