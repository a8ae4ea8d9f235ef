-- ===== src/F64/Laws.antt =====
-- What follows from the laws of `F64`: order, and the numbers between 0 and 1.
use sturnus.Prelude.{ℕ, ◌≡◌, subst, true, arith}
use sturnus.F64.{F64, ◌≼◌, ◌≺◌, fzero, fone, IsIeee}

module _ {F : Type 0} ⦃d : F64 F⦄ where
  abbrev pub IsUnit : F → Type 0
  IsUnit x = (fzero ≼ x) × (x ≼ fone)

  abbrev pub IsFinite : F → Type 0
  IsFinite x = d.is_finite x ≡ true

module _ {F : Type 0} ⦃d : F64 F⦄ (ieee : IsIeee F) where
  open d use {add, sub, mul, div, powf, fmin, fmax, round, of_u64, to_u64, decimal}

  pub zero-IsUnit : IsUnit {F = F} fzero
  zero-IsUnit = (ieee.decimal_mono 0 0 0 0 (omega arith), ieee.decimal_mono 0 0 1 0 (omega arith))

  pub one-IsUnit : IsUnit {F = F} fone
  one-IsUnit = (ieee.decimal_mono 0 0 1 0 (omega arith), ieee.decimal_mono 1 0 1 0 (omega arith))

  pub one-IsFinite : IsFinite {F = F} fone
  one-IsFinite = ieee.decimal_finite 1 0 (omega arith)

  pub unit-IsFinite : (x : F) → IsUnit x → IsFinite x
  unit-IsFinite x u = ieee.finite_of_le x fone u.0 u.1 one-IsFinite

  pub le_refl_left : (x y : F) → x ≼ y → x ≼ x
  le_refl_left x y h = (ieee.refl_of_le x y h).0

  pub le_refl_right : (x y : F) → x ≼ y → y ≼ y
  le_refl_right x y h = (ieee.refl_of_le x y h).1

  pub compl-IsUnit : (a : F) → IsUnit a → IsUnit (sub fone a)
  compl-IsUnit a u = (ieee.compl_nonneg a u.0 u.1, ieee.compl-le-one a u.0 u.1)

  pub mul-IsUnit-le : (a x : F) → IsUnit a → IsUnit x → mul a x ≼ a
  mul-IsUnit-le a x u v =
      subst (λ z. mul a x ≼ z) (ieee.mul_one a u.0)
        (ieee.mul_mono a a x fone u.0 v.0 (le_refl_left a fone u.1) v.1 (unit-IsFinite a u)
          one-IsFinite)

  pub mul-le_IsUnit : (a x : F) → IsUnit a → IsUnit x → mul a x ≼ x
  mul-le_IsUnit a x u v =
      subst (λ z. mul a x ≼ z) (ieee.one_mul x v.0)
        (ieee.mul_mono a fone x x u.0 v.0 u.1 (le_refl_left x fone v.1) one-IsFinite
          (unit-IsFinite x v))

  pub mul_unit_nonneg : (a x : F) → IsUnit a → IsUnit x → fzero ≼ mul a x
  mul_unit_nonneg a x u v = ieee.mul_nonneg a x u.0 v.0 (unit-IsFinite a u) (unit-IsFinite x v)

  pub lt_of_lt_of_le : (x y z : F) → x ≺ y → y ≼ z → x ≺ z
  lt_of_lt_of_le x y z p q = ground (
    arith,
    ieee.lt-eq-not-le x z (le_refl_left x y (ieee.le_of_lt x y p)) (le_refl_right y z q),
    ieee.lt-eq-not-le x y (le_refl_left x y (ieee.le_of_lt x y p)) (le_refl_left y z q),
    ieee.le_trans y z x q,
  )

  pub pos_of_one-le : (x : F) → fone ≼ x → fzero ≺ x
  pos_of_one-le x h =
      lt_of_lt_of_le fzero fone x (ieee.decimal_pos 1 0 (omega arith) (omega arith) (omega arith)) h

  pub decimal_refl : (m e : ℕ) → decimal m e ≼ decimal m e
  decimal_refl m e = ieee.decimal_mono m e m e (omega arith)
