-- ===== src/Router/Weights.antt =====
-- The weights: between the probe floor and the resolution, for every candidate.
use sturnus.Prelude.{
  ℕ, ◌≤◌, ◌<◌, max, ◌≡◌, ap, subst, inl, inr, Bool, true, false, Option, none, some, arith,
  Bool-cases, nat_eq, cond, ◌∙◌,
}
use sturnus.F64.{F64, ◌≼◌, fzero, fone, u64_mod, IsIeee}
use sturnus.F64.Laws.{
  IsUnit, IsFinite, one-IsUnit, mul_unit_nonneg, mul-IsUnit-le, one-IsFinite, pos_of_one-le,
  lt_of_lt_of_le, decimal_refl,
}
use sturnus.Tracker.{LatencyMode, streaming, non_streaming, CandidateStats, ewma_ms, is_cold}
use sturnus.Tracker.Invariant.{IsSound}
use sturnus.Router.{
  effective_latency, raw_weight, weight_of, weight_resolution, probe_floor, min_success_rate,
  cold_probe_weight,
}

module _ {F : Type 0} ⦃d : F64 F⦄ where
  -- An effective latency is a finite number of milliseconds, at least 1.
  abbrev pub IsLatency : Option F → Type 0
  IsLatency none = Unit
  IsLatency (some l) = (fone ≼ l) × IsFinite l

  abbrev pub IsAbove : F → Option F → Type 0
  IsAbove best none = Unit
  IsAbove best (some l) = best ≼ l

module _ {F : Type 0} ⦃d : F64 F⦄ (ieee : IsIeee F) where
  open d use {decimal, infinity, of_u64, mul, div, powf, fmin, fmax, round, to_u64, is_finite}

  ewma_ms-lt : (s : CandidateStats F) (mode : LatencyMode) → IsSound s → ewma_ms s mode < u64_mod
  unfolding ewma_ms
  ewma_ms-lt s streaming v = v.streaming_word
  ewma_ms-lt s non_streaming v = v.nonstreaming_word

  -- The success rate, floored, is a divisor between 0.001 and 1.
  floored_rate :
      (r : F)
      → IsUnit r
      → (decimal 1 3 ≼ fmax r min_success_rate) × (fmax r min_success_rate ≼ fone)
  floored_rate r u = (
    ieee.le-max_right r (decimal 1 3) (ieee.decimal_mono 1 3 1 3 (omega arith)),
    ieee.max-le r (decimal 1 3) fone u.1 (ieee.decimal_mono 1 3 1 0 (omega arith)),
  )

  pub effective_latency-IsLatency :
      (s : CandidateStats F) (mode : LatencyMode) → IsSound s → IsLatency (effective_latency s mode)
  unfolding effective_latency
  effective_latency-IsLatency s mode v = elim (Bool-cases (is_cold s mode)) [
    | inl cold ↦ rw cold tt
    | inr warm ↦ rw warm (
      at_least_one,
      ieee.div_finite n r small (floored_rate _ v.rate_unit).0 (floored_rate _ v.rate_unit).1,
    )
  ]
    where
      n : ℕ
      n = max (ewma_ms s mode) 1

      r : F
      r = fmax s.success_rate min_success_rate

      small : n < u64_mod
      small = omega (arith, ewma_ms-lt s mode v)

      one-le-n : fone ≼ of_u64 n
      one-le-n = subst (λ z. z ≼ of_u64 n) ieee.of_u64_one (ieee.of_u64_mono 1 n (omega arith))

      at_least_one : fone ≼ div (of_u64 n) r
      at_least_one =
          ieee.one-le-div (of_u64 n) r one-le-n
            (lt_of_lt_of_le ieee fzero (decimal 1 3) r
              (ieee.decimal_pos 1 3 (omega arith) (omega arith) (omega arith))
              (floored_rate _ v.rate_unit).0)
            (floored_rate _ v.rate_unit).1

  rounded-le : (raw : F) → IsUnit raw → round (mul raw weight_resolution) ≼ weight_resolution
  rounded-le raw u =
      subst (λ z. round (mul raw weight_resolution) ≼ z) (ieee.round_integer 1000 (omega arith))
        (ieee.round_mono _ _ (
          subst (λ z. mul raw weight_resolution ≼ z)
            (ieee.one_mul (decimal 1000 0) (ieee.decimal_mono 0 0 1000 0 (omega arith)))
            (ieee.mul_mono raw fone (decimal 1000 0) (decimal 1000 0) u.0
              (ieee.decimal_mono 0 0 1000 0 (omega arith)) u.1 (decimal_refl ieee 1000 0)
              (one-IsFinite ieee) (ieee.decimal_finite 1000 0 (omega arith)))))

  -- The weight of a raw weight between 0 and 1 is at least the probe share, and at most the
  -- resolution.
  pub weight_of_bounds : (raw : F) → IsUnit raw → (10 ≤ weight_of raw) × (weight_of raw ≤ 1000)
  unfolding weight_of
  weight_of_bounds raw u =
      rw (weight_of, ieee.thousand-mul-hundredth)
        (
          subst (λ n. n ≤ to_u64 (fmax (round (mul raw weight_resolution)) (decimal 10 0)))
              (ieee.to_u64_integer 10 (omega arith))
              (ieee.to_u64_mono _ _ (ieee.le-max_right _ _ (decimal_refl ieee 10 0))),
          subst (λ n. to_u64 (fmax (round (mul raw weight_resolution)) (decimal 10 0)) ≤ n)
              (ieee.to_u64_integer 1000 (omega arith))
              (ieee.to_u64_mono _ _ (
                ieee.max-le _ _ _ (rounded-le raw u)
                  (ieee.decimal_mono 10 0 1000 0 (omega arith)))),
        )

  -- A raw weight of 1 is the whole resolution.
  pub weight_of-one : weight_of {F = F} fone ≡ 1000
  unfolding weight_of
  weight_of-one = omega (arith, (weight_of_bounds fone (one-IsUnit ieee)).1, at_least)
    where
      whole : round (mul fone weight_resolution) ≡ decimal 1000 0
      whole =
          ap round (ieee.one_mul (decimal 1000 0) (ieee.decimal_mono 0 0 1000 0 (omega arith)))
          ∙ ieee.round_integer 1000 (omega arith)

      at_least :
          1000
          ≤ to_u64 (fmax (round (mul fone weight_resolution)) (mul weight_resolution probe_floor))
      at_least = rw whole (
          subst (λ n. n ≤ to_u64 (fmax (decimal 1000 0) (mul weight_resolution probe_floor)))
            (ieee.to_u64_integer 1000 (omega arith))
            (ieee.to_u64_mono _ _ (ieee.le-max_left _ _ (decimal_refl ieee 1000 0))))

  base-IsUnit : (b : Bool) → IsUnit (cond b cold_probe_weight (decimal 1 0))
  base-IsUnit true =
      (ieee.decimal_mono 0 0 25 2 (omega arith), ieee.decimal_mono 25 2 1 0 (omega arith))
  base-IsUnit false = one-IsUnit ieee

  mul-IsUnit : (a x : F) → IsUnit a → IsUnit x → IsUnit (mul a x)
  mul-IsUnit a x u v =
      (mul_unit_nonneg ieee a x u v, ieee.le_trans _ a fone (mul-IsUnit-le ieee a x u v) u.1)

  module _ (k : F) (k_nonneg : fzero ≼ k) where
    -- Raw weights lie between 0 and 1 where `best` is the least of the effective latencies.
    pub raw_weight-IsUnit :
        (best : F) (e : Option F) (rate : F)
        → fone ≼ best
        → IsLatency e
        → IsAbove best e
        → IsUnit rate
        → IsUnit (raw_weight best k e rate)
    unfolding raw_weight
    raw_weight-IsUnit best (some l) rate b g a u =
        ieee.powf_unit (div best l) k
          (ieee.div_nonneg best l (ieee.le_trans _ fone _ (one-IsUnit ieee).0 b)
            (pos_of_one-le ieee l g.0) g.1)
          (ieee.div-le-one best l (pos_of_one-le ieee best b) a g.1) k_nonneg
    raw_weight-IsUnit best none rate b g a u = mul-IsUnit _ _ (base-IsUnit (is_finite best)) (
        ieee.powf_unit (fmax rate min_success_rate) k
          (ieee.le_trans _ _ _ (ieee.decimal_mono 0 0 1 3 (omega arith)) (floored_rate rate u).0)
          (floored_rate rate u).1 k_nonneg)

    pub raw_weight_best :
        (best rate : F) → fone ≼ best → IsFinite best → raw_weight best k (some best) rate ≡ fone
    unfolding raw_weight
    raw_weight_best best rate b f =
        rw (raw_weight, ieee.div_self best (pos_of_one-le ieee best b) f) (ieee.one_powf k k_nonneg)
