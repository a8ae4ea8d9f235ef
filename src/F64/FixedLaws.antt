-- ===== src/F64/FixedLaws.antt =====
-- The fixed-point numbers meet the laws of `F64`.
use native.Mathlib.Nat.{
  mul-le-mul, mul-le-mul_right, le_of_mul-le-mul_right, le-div_iff_mul-le, div-mul-le_self,
  div-lt_iff_lt-mul, mul-div_cancel_left, pow-suc,
}
use sturnus.Prelude.{
  ℕ, zero, suc, ◌+◌, ◌-◌, ◌*◌, ◌/◌, ◌^◌, ◌≤◌, ◌<◌, ◌≡◌, refl, ◌⊎◌, true, arith, ap, leb→le, le→leb,
  ltb→lt, lt→ltb,
}
use sturnus.F64.{◌≼◌, ◌≺◌, fzero, fone, u64_mod, IsIeee}
use sturnus.F64.Fixed.{Fixed, fin, inf, power, fixed_f64}

le_trans_fixed : (x y z : Fixed) → x ≼ y → y ≼ z → x ≼ z
unfolding fixed_f64
le_trans_fixed x y z = ground arith

total : (x y : Fixed) → x ≼ x → y ≼ y → (x ≼ y) ⊎ (y ≼ x)
unfolding fixed_f64
total x y = ground arith

-- `a / d ≤ b / e` where the cross products are ordered.
div_cross : (a d b e : ℕ) → 0 < d → 0 < e → a * e ≤ b * d → a / d ≤ b / e
div_cross a d b e pd pe h =
    (le-div_iff_mul-le pe).1
      (le_of_mul-le-mul_right (omega (arith, mul-le-mul_right e (div-mul-le_self a d), h)) pd)

pow10_pos : (e : ℕ) → 0 < 10 ^ e
pow10_pos zero = omega arith
pow10_pos (suc e) = rw (pow-suc 10 e) (omega (arith, pow10_pos e))

decimal_mono_fixed :
    (m e n f : ℕ) → m * 10 ^ f ≤ n * 10 ^ e → fixed_f64.decimal m e ≼ fixed_f64.decimal n f
unfolding fixed_f64
decimal_mono_fixed m e n f h = le→leb _ _ (
    div_cross (m * 1_000_000) (10 ^ e) (n * 1_000_000) (10 ^ f) (pow10_pos e) (pow10_pos f)
      (omega (arith, h)))

pow10_le : (e : ℕ) → e ≤ 6 → 10 ^ e ≤ 1_000_000
pow10_le zero h = omega arith
pow10_le (suc zero) h = omega arith
pow10_le (suc (suc zero)) h = omega arith
pow10_le (suc (suc (suc zero))) h = omega arith
pow10_le (suc (suc (suc (suc zero)))) h = omega arith
pow10_le (suc (suc (suc (suc (suc zero))))) h = omega arith
pow10_le (suc (suc (suc (suc (suc (suc zero)))))) h = omega arith
pow10_le (suc (suc (suc (suc (suc (suc (suc e))))))) h = absurd (omega arith)

decimal_pos_fixed : (m e : ℕ) → 0 < m → m ≤ 1000 → e ≤ 6 → fzero ≺ fixed_f64.decimal m e
unfolding fixed_f64
decimal_pos_fixed m e p h k =
    lt→ltb _ _ ((le-div_iff_mul-le (pow10_pos e)).1 (omega (arith, pow10_le e k)))

mul_mono_fixed :
    (a b x y : Fixed)
    → fzero ≼ a
    → fzero ≼ x
    → a ≼ b
    → x ≼ y
    → fixed_f64.is_finite b ≡ true
    → fixed_f64.is_finite y ≡ true
    → fixed_f64.mul a x ≼ fixed_f64.mul b y
unfolding fixed_f64
mul_mono_fixed (fin a) (fin b) (fin x) (fin y) _ _ p q _ _ =
    le→leb _ _ (omega (arith, mul-le-mul (leb→le _ _ p) (leb→le _ _ q)))
mul_mono_fixed inf (fin b) x y _ _ p q _ _ = cc
mul_mono_fixed a inf x y _ _ p q e _ = cc
mul_mono_fixed (fin a) (fin b) inf (fin y) _ _ p q _ _ = cc
mul_mono_fixed (fin a) (fin b) x inf _ _ p q _ f = cc

div-le-one_fixed :
    (x y : Fixed) → fzero ≺ x → x ≼ y → fixed_f64.is_finite y ≡ true → fixed_f64.div x y ≼ fone
unfolding fixed_f64
div-le-one_fixed (fin a) (fin zero) p q _ = absurd (omega (arith, ltb→lt _ _ p, leb→le _ _ q))
div-le-one_fixed (fin a) (fin (suc b)) p q _ = le→leb _ _ (
    omega (
      arith,
      (div-lt_iff_lt-mul {k = suc b} {x = a * 1_000_000} {y = 1_000_001} (omega arith)).1
          (omega (arith, leb→le _ _ q)),
    ))
div-le-one_fixed inf (fin b) p q _ = cc
div-le-one_fixed x inf p q e = cc

div_self_fixed : (x : Fixed) → fzero ≺ x → fixed_f64.is_finite x ≡ true → fixed_f64.div x x ≡ fone
unfolding fixed_f64
div_self_fixed (fin zero) p _ = cc
div_self_fixed (fin (suc a)) p _ = ap fin (mul-div_cancel_left 1_000_000 (omega arith))
div_self_fixed inf p e = cc

one-le-div_fixed : (x y : Fixed) → fone ≼ x → fzero ≺ y → y ≼ fone → fone ≼ fixed_f64.div x y
unfolding fixed_f64
one-le-div_fixed (fin a) (fin zero) p q r = cc
one-le-div_fixed (fin a) (fin (suc b)) p q r =
    le→leb _ _ ((le-div_iff_mul-le (omega arith)).1 (omega (arith, leb→le _ _ p, leb→le _ _ r)))
one-le-div_fixed inf y p q r = refl
one-le-div_fixed (fin a) inf p q r = cc

div_finite_fixed :
    (n : ℕ) (y : Fixed)
    → n < u64_mod
    → fixed_f64.decimal 1 3 ≼ y
    → y ≼ fone
    → fixed_f64.is_finite (fixed_f64.div (fixed_f64.of_u64 n) y) ≡ true
unfolding fixed_f64
div_finite_fixed n (fin zero) _ p q = cc
div_finite_fixed n (fin (suc b)) _ p q = refl
div_finite_fixed n inf _ p q = refl

power_one : (k : ℕ) → power 1_000_000 k ≡ 1_000_000
unfolding power
power_one zero = refl
power_one (suc k) = rw (power_one k)

power-le : (a k : ℕ) → a ≤ 1_000_000 → power a k ≤ 1_000_000
unfolding power
power-le a zero h = omega arith
power-le a (suc k) h = omega (arith, mul-le-mul h (power-le a k h))

powf_unit_fixed :
    (x k : Fixed)
    → fzero ≼ x
    → x ≼ fone
    → fzero ≼ k
    → (fzero ≼ fixed_f64.powf x k) × (fixed_f64.powf x k ≼ fone)
unfolding fixed_f64
powf_unit_fixed (fin a) (fin k) p q r =
    (le→leb _ _ (omega arith), le→leb _ _ (power-le a (k / 1_000_000) (leb→le _ _ q)))
powf_unit_fixed (fin a) inf p q r = (p, q)
powf_unit_fixed inf k p q r = cc

one_powf_fixed : (k : Fixed) → fzero ≼ k → fixed_f64.powf fone k ≡ fone
unfolding fixed_f64
one_powf_fixed (fin k) h = ap fin (power_one (k / 1_000_000))
one_powf_fixed inf h = refl

blend_self : (a b m : ℕ) → a + b ≡ 1_000_000 → a * m + b * m ≡ 1_000_000 * m
blend_self a b m e = rw (← e) (omega arith)

round_convex_fixed :
    (a : Fixed) (m : ℕ)
    → fzero ≼ a
    → a ≼ fone
    → m < 2 ^ 50
    → fixed_f64.to_u64 (
        fixed_f64.round (
          fixed_f64.add
            (fixed_f64.mul a (fixed_f64.of_u64 m))
            (fixed_f64.mul (fixed_f64.sub fone a) (fixed_f64.of_u64 m))))
      ≡ m
unfolding fixed_f64
round_convex_fixed (fin a) m _ p h =
    omega (arith, blend_self a (1_000_000 - a) m (omega (arith, leb→le _ _ p)))
round_convex_fixed inf m _ p h = cc

pub fixed-IsIeee : IsIeee Fixed
unfolding fixed_f64
fixed-IsIeee = record {
  le_trans = le_trans_fixed;
  refl_of_le = λ x y. ground arith;
  le_total = total;
  lt-eq-not-le = λ x y. ground arith;
  le_of_lt = λ x y. ground arith;
  decimal_mono = decimal_mono_fixed;
  decimal_pos = decimal_pos_fixed;
  decimal_finite = λ m e h. refl;
  infinity_top = λ x. ground arith;
  infinity_not_finite = refl;
  finite_refl = λ x. ground arith;
  finite_of_le = λ x y. ground arith;
  le-max_left = λ x y. ground arith;
  le-max_right = λ x y. ground arith;
  max-le = λ x y z. ground arith;
  min-le_left = λ x y. ground arith;
  min-le_right = λ x y. ground arith;
  min_choice = λ x y. ground arith;
  add_mono = λ a b x y. ground arith;
  mul_mono = mul_mono_fixed;
  zero-add-le = λ x. ground arith;
  mul_one = λ x. ground arith;
  one_mul = λ x. ground arith;
  mul_nonneg = λ x y. ground arith;
  mul-zero-le = λ x. ground arith;
  add_nonneg = λ x y. ground arith;
  compl_nonneg = λ a. ground arith;
  compl-le-one = λ a. ground arith;
  add-compl = λ a. ground arith;
  div_nonneg = λ x y. ground arith;
  div-le-one = div-le-one_fixed;
  div_self = div_self_fixed;
  one-le-div = one-le-div_fixed;
  div_finite = div_finite_fixed;
  one_powf = one_powf_fixed;
  powf_unit = powf_unit_fixed;
  round_mono = λ x y. ground arith;
  round_integer = λ n. ground arith;
  to_u64_mono = λ x y. ground arith;
  to_u64-lt = λ x. ground arith;
  to_u64_integer = λ n. ground arith;
  of_u64_mono = λ m n. ground arith;
  of_u64_one = ground arith;
  of_u64_nonneg = λ n. ground arith;
  of_u64_finite = λ n h. refl;
  thousand-mul-hundredth = refl;
  round_convex = round_convex_fixed;
}
