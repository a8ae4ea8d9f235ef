-- ===== src/Router/Weighing.antt =====
-- The loops that find the best effective latency and weigh every candidate.
use sturnus.Prelude.{
  ℕ, zero, suc, ◌+◌, ◌*◌, ◌%◌, ◌≤◌, ◌<◌, ◌≡◌, refl, sym, ap, subst, ◌⊎◌, inl, inr, Option, none,
  some, List, [], ◌∷◌, arith, length, get_elem?, All, All-get_elem?, get_elem?-some, ◌∙◌,
}
use sturnus.F64.{F64, ◌≼◌, fzero, fone, u64_mod, IsIeee}
use sturnus.F64.Laws.{le_refl_right, one-IsUnit}
use sturnus.Candidate.{ResolvedCandidate}
use sturnus.Tracker.{LatencyMode, CandidateStats, Tracker, stats_at}
use sturnus.Tracker.Invariant.{IsSound, IsValid}
use sturnus.Router.{
  effective_latency, best_from, raw_weight, weight_of, effectives, weigh, weighted, total_of,
}
use sturnus.Router.Weights.{
  IsLatency, IsAbove, effective_latency-IsLatency, weight_of_bounds, weight_of-one,
  raw_weight-IsUnit, raw_weight_best,
}

-- A weight between the probe share and the resolution.
abbrev pub InBounds {ℓ} : {C : Type ℓ} → C × ℕ → Type 0
InBounds (c, w) = (10 ≤ w) × (w ≤ 1000)

abbrev pub firsts {ℓ} : {C : Type ℓ} → List (C × ℕ) → List C
firsts [] = []
firsts ((c, w) ∷ rest) = c ∷ firsts rest

-- The sum of the weights, with no wrapping.
abbrev pub sum_weights {ℓ} : {C : Type ℓ} → List (C × ℕ) → ℕ
sum_weights [] = 0
sum_weights ((c, w) ∷ rest) = w + sum_weights rest

pub length-firsts {ℓ} : {C : Type ℓ} (ws : List (C × ℕ)) → length (firsts ws) ≡ length ws
length-firsts [] = refl
length-firsts (_ ∷ ws) = ap suc (length-firsts ws)

pub sum_weights_bounds {ℓ} :
    {C : Type ℓ} (ws : List (C × ℕ))
    → All InBounds ws
    → (10 * length ws ≤ sum_weights ws) × (sum_weights ws ≤ 1000 * length ws)
sum_weights_bounds [] h = omega arith
sum_weights_bounds ((c, w) ∷ ws) h = omega (arith, h.0, sum_weights_bounds ws h.1)

pub total_of-eq-sum {ℓ} :
    {C : Type ℓ} (total : ℕ) (ws : List (C × ℕ))
    → total + sum_weights ws < u64_mod
    → total_of total ws ≡ total + sum_weights ws
unfolding total_of
total_of-eq-sum total [] h = omega arith
total_of-eq-sum total ((c, w) ∷ ws) h =
    total_of-eq-sum ((total + w) % u64_mod) ws (omega arith) ∙ omega arith

module _ {F : Type 0} ⦃d : F64 F⦄ (ieee : IsIeee F) where
  open d use {infinity, fmin}

  best_step :
      (acc l : F)
      → fone ≼ acc
      → fone ≼ l
      → (fone ≼ fmin acc l) × (fmin acc l ≼ acc) × (fmin acc l ≼ l)
  best_step acc l p q = (
    elim (ieee.min_choice acc l (le_refl_right ieee fone acc p) (le_refl_right ieee fone l q)) [
      | inl e ↦ rw e p
      | inr e ↦ rw e q
    ],
    ieee.min-le_left acc l (le_refl_right ieee fone acc p),
    ieee.min-le_right acc l (le_refl_right ieee fone l q),
  )

  -- The best effective latency is below all, and at least 1.
  pub best_from-IsAbove :
      (acc : F) (es : List (Option F))
      → fone ≼ acc
      → All IsLatency es
      → (fone ≼ best_from acc es) × (best_from acc es ≼ acc) × All (IsAbove (best_from acc es)) es
  unfolding best_from
  best_from-IsAbove acc [] p h = (p, le_refl_right ieee fone acc p, tt)
  best_from-IsAbove acc (none ∷ es) p h =
      let (a, b, c) = best_from-IsAbove acc es p h.1 in (a, b, (tt, c))
  best_from-IsAbove acc (some l ∷ es) p h =
      let (s, t, u) = best_step acc l p h.0.0 in
      let (a, b, c) = best_from-IsAbove (fmin acc l) es s h.1 in
      (a, ieee.le_trans _ _ _ b t, (ieee.le_trans _ _ _ b u, c))

  -- It is the start, or one of the latencies.
  pub best_from_attained :
      (acc : F) (es : List (Option F))
      → fone ≼ acc
      → All IsLatency es
      → (best_from acc es ≡ acc) ⊎ ((i : ℕ) × (get_elem? es i ≡ some (some (best_from acc es))))
  unfolding best_from
  best_from_attained acc [] p h = inl refl
  best_from_attained acc (none ∷ es) p h = elim (best_from_attained acc es p h.1) [
    | inl e ↦ inl e
    | inr (i, e) ↦ inr (suc i, e)
  ]
  best_from_attained acc (some l ∷ es) p h =
      elim (best_from_attained (fmin acc l) es (best_step acc l p h.0.0).0 h.1) [
        | inr (i, e) ↦ inr (suc i, e)
        | inl e ↦
            elim (ieee.min_choice acc l (le_refl_right ieee fone acc p)
              (le_refl_right ieee fone l h.0.0)) [
                | inl f ↦ inl (e ∙ f)
                | inr f ↦ inr (0, ap (λ z. some (some z)) (sym (e ∙ f)))
              ]
      ]

module _ {F : Type 0} ⦃d : F64 F⦄ {V M : Type 0} where
  -- The candidates' slots exist.
  abbrev pub Registered : Tracker F → List (ResolvedCandidate V M) → Type 0
  Registered t = All λ c. c.stats_index < length t.stats

module _ {F : Type 0} ⦃d : F64 F⦄ (ieee : IsIeee F) where
  pub infinity-one : fone ≼ d.infinity
  infinity-one = ieee.infinity_top fone (one-IsUnit ieee).1

full-cons :
    {F C : Type 0} (best : F) (c : C) (w : ℕ) (ws : List (C × ℕ)) (e : Option F)
    (es : List (Option F))
    → (e ≡ some best → w ≡ 1000)
    → ((i : ℕ) → get_elem? es i ≡ some (some best) → (x : C) × (get_elem? ws i ≡ some (x, 1000)))
    → (i : ℕ) → get_elem? (e ∷ es) i ≡ some (some best)
    → (x : C) × (get_elem? ((c, w) ∷ ws) i ≡ some (x, 1000))
full-cons best c w ws e es here later zero eq = (c, rw (here (cc)))
full-cons best c w ws e es here later (suc i) eq = later i eq

module _ {F : Type 0} ⦃d : F64 F⦄ (t : Tracker F) (v : IsValid t) where
  slot : (i : ℕ) → i < length t.stats → (s : CandidateStats F) × (stats_at t i ≡ some s) × IsSound s
  unfolding stats_at
  slot i h =
      let (s, e) = get_elem?-some t.stats i h in (s, e, All-get_elem? IsSound t.stats i v.slots e)

module _ {F : Type 0} ⦃d : F64 F⦄ (ieee : IsIeee F) {V M : Type 0} (t : Tracker F)
    (v : IsValid t) where
  open d use {infinity}

  pub effectives-total :
      (mode : LatencyMode) (cs : List (ResolvedCandidate V M))
      → Registered t cs
      → (es : List (Option F)) × (effectives t mode cs ≡ some es)
        × All IsLatency es
        × (length es ≡ length cs)
  unfolding effectives
  effectives-total mode [] h = ([], refl, tt, refl)
  effectives-total mode (c ∷ cs) h =
      let (s, e, sound) = slot t v c.stats_index h.0 in
      let (es, eq, lat, len) = effectives-total mode cs h.1 in
      (
        effective_latency s mode ∷ es,
        rw (e, eq) refl,
        (effective_latency-IsLatency ieee s mode sound, lat),
        ap suc len,
      )

  module _ (k : F) (k_nonneg : fzero ≼ k) where
    -- Every candidate is weighed, in order, within the bounds; one whose effective latency is the
    -- best has the full weight.
    pub weigh-total :
        (best : F) (cs : List (ResolvedCandidate V M)) (es : List (Option F))
        → fone ≼ best
        → Registered t cs
        → All IsLatency es
        → All (IsAbove best) es
        → length es ≡ length cs
        → (ws : List (ResolvedCandidate V M × ℕ)) × (weigh t best k cs es ≡ some ws)
          × (firsts ws ≡ cs)
          × All InBounds ws
          × ((i : ℕ)
              → get_elem? es i ≡ some (some best)
              → (c : ResolvedCandidate V M) × (get_elem? ws i ≡ some (c, 1000)))
    unfolding weigh
    weigh-total best [] [] b r g a len = ([], refl, refl, tt, λ i e. cc)
    weigh-total best [] (_ ∷ _) b r g a len = absurd (omega arith)
    weigh-total best (_ ∷ _) [] b r g a len = absurd (omega arith)
    weigh-total best (c ∷ cs) (e ∷ es) b r g a len =
        let (s, at, sound) = slot t v c.stats_index r.0 in
        let (ws, eq, same, bounds, full) = weigh-total best cs es b r.1 g.1 a.1 (omega arith) in
        let w : ℕ = weight_of (raw_weight best k e s.success_rate) in
        (
          (c, w) ∷ ws,
          rw (at, eq) refl,
          ap (◌∷◌ c) same,
          (
            weight_of_bounds ieee _
                (raw_weight-IsUnit ieee k k_nonneg best e s.success_rate b g.0 a.0 sound.rate_unit),
            bounds,
          ),
          full-cons best c w ws e es
              (λ same_best.
                let lat : IsLatency (some best) = subst IsLatency same_best g.0 in
                ap (λ z. weight_of (raw_weight best k z s.success_rate)) same_best
                ∙ ap weight_of (raw_weight_best ieee k k_nonneg best s.success_rate b lat.1)
                ∙ weight_of-one ieee)
              full,
        )

    -- `weighted` returns for every list of registered candidates.
    pub weighted-total :
        (mode : LatencyMode) (cs : List (ResolvedCandidate V M))
        → Registered t cs
        → (ws : List (ResolvedCandidate V M × ℕ)) × (weighted t k mode cs ≡ some ws)
          × (firsts ws ≡ cs)
          × All InBounds ws
    unfolding weighted
    weighted-total mode cs r =
        let (es, eq, lat, len) = effectives-total mode cs r in
        let (b, _, above) = best_from-IsAbove ieee infinity es (infinity-one ieee) lat in
        let (ws, weq, same, bounds, _) =
          weigh-total (best_from infinity es) cs es b r lat above len in
        (ws, rw (eq, weq) refl, same, bounds)
