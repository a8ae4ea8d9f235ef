-- ===== src/Tracker/Averages.antt =====
-- The two averages of a slot: the blend of a sample stays between the sample and the old value.
use sturnus.Prelude.{
  ℕ, ◌^◌, ◌≤◌, ◌<◌, min, max, ◌≡◌, refl, subst, ◌≢◌, Bool, true, false, arith, nat_eq,
}
use sturnus.F64.{F64, ◌≼◌, fzero, fone, u64_max, IsIeee}
use sturnus.F64.Laws.{
  IsUnit, zero-IsUnit, one-IsUnit, unit-IsFinite, le_refl_left, compl-IsUnit, mul-IsUnit-le,
  mul-le_IsUnit, mul_unit_nonneg,
}
use sturnus.Tracker.{
  LatencyMode, streaming, non_streaming, CandidateStats, ewma_ms, update_ewma, record_outcome,
  blend_outcome,
}

-- Two latencies that are no sentinel, and that a double holds with room to spare.
abbrev pub ms_limit : ℕ
ms_limit = 2 ^ 50

module _ {F : Type 0} ⦃d : F64 F⦄ (ieee : IsIeee F) where
  open d use {add, sub, mul, round, of_u64, to_u64}

  blend-IsUnit :
      (a x y : F) → IsUnit a → IsUnit x → IsUnit y → IsUnit (add (mul a x) (mul (sub fone a) y))
  blend-IsUnit a x y u v w = (
    ieee.add_nonneg (mul a x) (mul b y) (mul_unit_nonneg ieee a x u v)
        (mul_unit_nonneg ieee b y c w),
    subst (λ z. add (mul a x) (mul b y) ≼ z) (ieee.add-compl a u.0 u.1)
        (ieee.add_mono (mul a x) a (mul b y) b (mul_unit_nonneg ieee a x u v)
          (mul_unit_nonneg ieee b y c w) (mul-IsUnit-le ieee a x u v) (mul-IsUnit-le ieee b y c w)),
  )
    where
      b : F
      b = sub fone a

      c : IsUnit b
      c = compl-IsUnit ieee a u

  -- A rate between 0 and 1 stays there, whatever the outcome.
  pub blend_outcome-IsUnit :
      (success : Bool) (alpha current : F)
      → IsUnit alpha
      → IsUnit current
      → IsUnit (blend_outcome success alpha current)
  unfolding blend_outcome
  blend_outcome-IsUnit true alpha current u v =
      blend-IsUnit alpha fone current u (one-IsUnit ieee) v
  blend_outcome-IsUnit false alpha current u v =
      blend-IsUnit alpha fzero current u (zero-IsUnit ieee) v

  -- An error never raises a rate between 0 and 1, for `alpha` between 0 and 1.
  pub blend_outcome-false-le :
      (alpha current : F)
      → IsUnit alpha
      → IsUnit current
      → blend_outcome false alpha current ≼ current
  unfolding blend_outcome
  blend_outcome-false-le alpha current u v =
      ieee.le_trans _ (add fzero current) current
        (ieee.add_mono (mul alpha fzero) fzero (mul b current) current
          (mul_unit_nonneg ieee alpha fzero u (zero-IsUnit ieee))
          (mul_unit_nonneg ieee b current c v)
          (ieee.mul-zero-le alpha u.0 (unit-IsFinite ieee alpha u))
          (mul-le_IsUnit ieee b current c v))
        (ieee.zero-add-le current (le_refl_left ieee current fone v.1))
    where
      b : F
      b = sub fone alpha

      c : IsUnit b
      c = compl-IsUnit ieee alpha u

  module _ (a : F) (u : IsUnit a) where
    blended : ℕ → ℕ → F
    blended m n = add (mul a (of_u64 m)) (mul (sub fone a) (of_u64 n))

    blended_mono :
        (m m' n n' : ℕ)
        → m ≤ m'
        → n ≤ n'
        → m' < ms_limit
        → n' < ms_limit
        → blended m n ≼ blended m' n'
    unfolding blended
    blended_mono m m' n n' p q r s =
        ieee.add_mono _ _ _ _ (part_nonneg a m u (omega arith)) (part_nonneg b n c (omega arith))
          (part_mono a m m' u p (omega arith)) (part_mono b n n' c q (omega arith))
      where
        b : F
        b = sub fone a

        c : IsUnit b
        c = compl-IsUnit ieee a u

        part_nonneg : (x : F) (k : ℕ) → IsUnit x → k < 2 ^ 64 → fzero ≼ mul x (of_u64 k)
        part_nonneg x k v h =
            ieee.mul_nonneg x (of_u64 k) v.0 (ieee.of_u64_nonneg k) (unit-IsFinite ieee x v)
              (ieee.of_u64_finite k h)

        part_mono :
            (x : F) (k l : ℕ) → IsUnit x → k ≤ l → l < 2 ^ 64 → mul x (of_u64 k) ≼ mul x (of_u64 l)
        part_mono x k l v h g =
            ieee.mul_mono x x (of_u64 k) (of_u64 l) v.0 (ieee.of_u64_nonneg k)
              (le_refl_left ieee x fone v.1) (ieee.of_u64_mono k l h) (unit-IsFinite ieee x v)
              (ieee.of_u64_finite l g)

    blended_bounds :
        (m n : ℕ)
        → m < ms_limit
        → n < ms_limit
        → (min m n ≤ to_u64 (round (blended m n))) × (to_u64 (round (blended m n)) ≤ max m n)
    unfolding blended
    blended_bounds m n p q = (
      subst (λ k. k ≤ to_u64 (round (blended m n)))
          (ieee.round_convex a (min m n) u.0 u.1 (omega arith))
          (ieee.to_u64_mono _ _ (
            ieee.round_mono _ _
              (blended_mono (min m n) m (min m n) n (omega arith) (omega arith) p q))),
      subst (λ k. to_u64 (round (blended m n)) ≤ k)
          (ieee.round_convex a (max m n) u.0 u.1 (omega arith))
          (ieee.to_u64_mono _ _ (
            ieee.round_mono _ _ (
              blended_mono m (max m n) n (max m n) (omega arith) (omega arith) (omega arith)
                (omega arith)))),
    )

  -- The first latency of a mode is taken as it is. Later ones blend: the new average lies between
  -- the old one and the latency observed, for `alpha` in [0, 1] and latencies below 2^50 ms.
  pub update_ewma_blends :
      (s : CandidateStats F) (mode : LatencyMode) (observed : ℕ) (alpha : F)
      → IsUnit alpha
      → observed < ms_limit
      → (ewma_ms s mode ≡ u64_max → ewma_ms (update_ewma s mode observed alpha) mode ≡ observed)
        × (ewma_ms s mode < ms_limit
            → (min observed (ewma_ms s mode) ≤ ewma_ms (update_ewma s mode observed alpha) mode)
              × (ewma_ms (update_ewma s mode observed alpha) mode ≤ max observed (ewma_ms s mode)))
  unfolding update_ewma nat_eq blended
  update_ewma_blends s streaming observed alpha u p =
      ground (arith, blended_bounds alpha u observed s.streaming_ewma_ms)
  update_ewma_blends s non_streaming observed alpha u p =
      ground (arith, blended_bounds alpha u observed s.nonstreaming_ewma_ms)

module _ {F : Type 0} ⦃d : F64 F⦄ where
  -- A latency of one mode leaves the other mode's average and the success rate as they were, and an
  -- outcome leaves both averages.
  pub updates_independent :
      (s : CandidateStats F) (mode other : LatencyMode) (observed : ℕ) (success : Bool) (alpha : F)
      → (mode ≢ other → ewma_ms (update_ewma s mode observed alpha) other ≡ ewma_ms s other)
        × ((update_ewma s mode observed alpha).success_rate ≡ s.success_rate)
        × (ewma_ms (record_outcome s success alpha) other ≡ ewma_ms s other)
  unfolding update_ewma record_outcome
  updates_independent s streaming streaming observed success alpha =
      ((λ h. absurd (h refl)), refl, refl)
  updates_independent s streaming non_streaming observed success alpha = ((λ h. refl), refl, refl)
  updates_independent s non_streaming streaming observed success alpha = ((λ h. refl), refl, refl)
  updates_independent s non_streaming non_streaming observed success alpha =
      ((λ h. absurd (h refl)), refl, refl)
