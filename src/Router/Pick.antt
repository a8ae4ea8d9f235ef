-- ===== src/Router/Pick.antt =====
-- The walk over the weighted candidates: each owns the part of the line that its weight covers.
use sturnus.Prelude.{
  ℕ, zero, suc, ◌+◌, ◌%◌, ◌≤◌, ◌<◌, ◌≡◌, refl, Option, some, List, [], ◌∷◌, arith, get_elem?, ltb,
  Bool-cases, inl, inr, ltb→lt,
}
use sturnus.F64.{u64_mod}
use sturnus.Router.{pick}
use sturnus.Router.Weighing.{sum_weights}

-- The weight before a place in the list.
abbrev pub before {ℓ} : {C : Type ℓ} → List (C × ℕ) → ℕ → ℕ
before [] i = 0
before (_ ∷ ws) zero = 0
before ((c, w) ∷ ws) (suc i) = w + before ws i

module _ {ℓ} {C : Type ℓ} where
  pub before-le :
      (ws : List (C × ℕ)) (i : ℕ) {c : C} {w : ℕ}
      → get_elem? ws i ≡ some (c, w)
      → before ws i + w ≤ sum_weights ws
  before-le [] i e = cc
  before-le ((c, v) ∷ ws) zero e = ground arith
  before-le ((c, v) ∷ ws) (suc i) e = omega (arith, before-le ws i e)

  -- A position in a candidate's part picks that candidate.
  pub pick_part :
      (ws : List (C × ℕ)) (i pos acc : ℕ) (last : Option C) {c : C} {w : ℕ}
      → get_elem? ws i ≡ some (c, w)
      → acc + sum_weights ws < u64_mod
      → acc + before ws i ≤ pos
      → pos < acc + before ws i + w
      → pick pos acc last ws ≡ some c
  unfolding pick
  pick_part [] i pos acc last e s lo hi = cc
  pick_part ((c, v) ∷ ws) zero pos acc last e s lo hi =
      let exact : (acc + v) % u64_mod ≡ acc + v = omega arith in ground arith
  pick_part ((c, v) ∷ ws) (suc i) pos acc last e s lo hi =
      let exact : (acc + v) % u64_mod ≡ acc + v = omega arith in
      ground (
        arith,
        pick_part ws i pos ((acc + v) % u64_mod) (some c) e (omega arith) (omega arith)
            (omega arith),
      )

  -- Every position below the sum lies in a candidate's part, so the fallback is never reached.
  pub pick_total :
      (ws : List (C × ℕ)) (pos acc : ℕ) (last : Option C)
      → acc + sum_weights ws < u64_mod
      → acc ≤ pos
      → pos < acc + sum_weights ws
      → (i : ℕ) × (c : C) × (w : ℕ) × (get_elem? ws i ≡ some (c, w))
        × (pick pos acc last ws ≡ some c)
        × (acc + before ws i ≤ pos)
        × (pos < acc + before ws i + w)
  unfolding pick
  pick_total [] pos acc last s lo hi = absurd (omega arith)
  pick_total ((c, v) ∷ ws) pos acc last s lo hi =
      let exact : (acc + v) % u64_mod ≡ acc + v = omega arith in
      elim (Bool-cases (ltb pos ((acc + v) % u64_mod))) [
        | inl here ↦ (0, c, v, refl, rw here refl, omega arith, omega (arith, ltb→lt _ _ here))
        | inr there ↦
            let past : acc + v ≤ pos = ground arith in
            let (i, x, w, at, picked, lo', hi') =
              pick_total ws pos ((acc + v) % u64_mod) (some c) (omega arith) (omega arith)
                (omega arith) in
            (suc i, x, w, at, rw there picked, omega arith, omega arith)
      ]
