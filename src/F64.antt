-- ===== src/F64.antt =====
-- The double-precision numbers as the source uses them: literals, arithmetic, `powf`, `round`, the
-- saturating cast `as u64` (also `as usize` on a 64-bit target) and comparisons.
-- The arithmetic is a parameter. `IsIeee` collects the facts of IEEE 754 that the theorems need.
pub mod Laws
pub mod Fixed
pub mod FixedLaws
use sturnus.Prelude.{ℕ, ◌+◌, ◌*◌, ◌^◌, ◌≤◌, ◌<◌, ◌≡◌, ◌⊎◌, Bool, true, false, not, ◌&&◌}

pub record F64 (F : Type 0) : Type 0 where
  -- The literal `m * 10^-e`.
  pub decimal : ℕ → ℕ → F
  pub infinity : F
  pub of_u64 : ℕ → F
  pub add : F → F → F
  pub sub : F → F → F
  pub mul : F → F → F
  pub div : F → F → F
  pub powf : F → F → F
  pub fmin : F → F → F
  pub fmax : F → F → F
  pub round : F → F
  pub to_u64 : F → ℕ
  pub is_finite : F → Bool
  pub lt : F → F → Bool
  pub le : F → F → Bool

-- `u64::MAX`, and the modulus of 64-bit words.
abbrev pub u64_mod : ℕ
u64_mod = 2 ^ 64

abbrev pub u64_max : ℕ
u64_max = 0xffff_ffff_ffff_ffff

module _ {F : Type 0} ⦃d : F64 F⦄ where
  infix 4 ◌≼◌ ◌≺◌
  abbrev pub ◌≼◌ : F → F → Type 0
  x ≼ y = d.le x y ≡ true

  abbrev pub ◌≺◌ : F → F → Type 0
  x ≺ y = d.lt x y ≡ true

  abbrev pub fzero : F
  fzero = d.decimal 0 0

  abbrev pub fone : F
  fone = d.decimal 1 0

  -- `(0.0..=1.0).contains(&x)`
  abbrev pub in_unit : F → Bool
  in_unit x = d.le fzero x && d.le x fone

-- What IEEE 754 promises. `x ≼ x` says that `x` is not NaN; laws that an infinity or a NaN would
-- break ask for finite or ordered arguments.
pub record IsIeee (F : Type 0) ⦃d : F64 F⦄ : Type 0 where
  pub le_trans : (x y z : F) → x ≼ y → y ≼ z → x ≼ z
  pub refl_of_le : (x y : F) → x ≼ y → (x ≼ x) × (y ≼ y)
  pub le_total : (x y : F) → x ≼ x → y ≼ y → (x ≼ y) ⊎ (y ≼ x)
  pub lt-eq-not-le : (x y : F) → x ≼ x → y ≼ y → d.lt x y ≡ not (d.le y x)
  pub le_of_lt : (x y : F) → x ≺ y → x ≼ y
  -- Literals are rounded correctly, so they keep their order.
  pub decimal_mono : (m e n f : ℕ) → m * 10 ^ f ≤ n * 10 ^ e → d.decimal m e ≼ d.decimal n f
  pub decimal_pos : (m e : ℕ) → 0 < m → m ≤ 1000 → e ≤ 6 → fzero ≺ d.decimal m e
  pub decimal_finite : (m e : ℕ) → m ≤ 1000 → d.is_finite (d.decimal m e) ≡ true
  pub infinity_top : (x : F) → x ≼ x → x ≼ d.infinity
  pub infinity_not_finite : d.is_finite d.infinity ≡ false
  pub finite_refl : (x : F) → d.is_finite x ≡ true → x ≼ x
  pub finite_of_le : (x y : F) → fzero ≼ x → x ≼ y → d.is_finite y ≡ true → d.is_finite x ≡ true
  -- `max` and `min`, which return the other argument for a NaN.
  pub le-max_left : (x y : F) → x ≼ x → x ≼ d.fmax x y
  pub le-max_right : (x y : F) → y ≼ y → y ≼ d.fmax x y
  pub max-le : (x y z : F) → x ≼ z → y ≼ z → d.fmax x y ≼ z
  pub min-le_left : (x y : F) → x ≼ x → d.fmin x y ≼ x
  pub min-le_right : (x y : F) → y ≼ y → d.fmin x y ≼ y
  pub min_choice : (x y : F) → x ≼ x → y ≼ y → (d.fmin x y ≡ x) ⊎ (d.fmin x y ≡ y)
  -- Arithmetic is monotone on non-negative numbers.
  pub add_mono : (a b x y : F) → fzero ≼ a → fzero ≼ x → a ≼ b → x ≼ y → d.add a x ≼ d.add b y
  pub mul_mono :
      (a b x y : F)
      → fzero ≼ a
      → fzero ≼ x
      → a ≼ b
      → x ≼ y
      → d.is_finite b ≡ true
      → d.is_finite y ≡ true
      → d.mul a x ≼ d.mul b y
  pub zero-add-le : (x : F) → x ≼ x → d.add fzero x ≼ x
  pub mul_one : (x : F) → fzero ≼ x → d.mul x fone ≡ x
  pub one_mul : (x : F) → fzero ≼ x → d.mul fone x ≡ x
  pub mul_nonneg :
      (x y : F)
      → fzero ≼ x
      → fzero ≼ y
      → d.is_finite x ≡ true
      → d.is_finite y ≡ true
      → fzero ≼ d.mul x y
  pub mul-zero-le : (x : F) → fzero ≼ x → d.is_finite x ≡ true → d.mul x fzero ≼ fzero
  pub add_nonneg : (x y : F) → fzero ≼ x → fzero ≼ y → fzero ≼ d.add x y
  -- `1.0 - a` and `a + (1.0 - a)` for `a` between 0 and 1.
  pub compl_nonneg : (a : F) → fzero ≼ a → a ≼ fone → fzero ≼ d.sub fone a
  pub compl-le-one : (a : F) → fzero ≼ a → a ≼ fone → d.sub fone a ≼ fone
  pub add-compl : (a : F) → fzero ≼ a → a ≼ fone → d.add a (d.sub fone a) ≡ fone
  -- Quotients.
  pub div_nonneg : (x y : F) → fzero ≼ x → fzero ≺ y → d.is_finite y ≡ true → fzero ≼ d.div x y
  pub div-le-one : (x y : F) → fzero ≺ x → x ≼ y → d.is_finite y ≡ true → d.div x y ≼ fone
  pub div_self : (x : F) → fzero ≺ x → d.is_finite x ≡ true → d.div x x ≡ fone
  pub one-le-div : (x y : F) → fone ≼ x → fzero ≺ y → y ≼ fone → fone ≼ d.div x y
  pub div_finite :
      (n : ℕ) (y : F)
      → n < u64_mod
      → d.decimal 1 3 ≼ y
      → y ≼ fone
      → d.is_finite (d.div (d.of_u64 n) y) ≡ true
  -- Powers with an exponent that is not negative.
  pub one_powf : (k : F) → fzero ≼ k → d.powf fone k ≡ fone
  pub powf_unit :
      (x k : F) → fzero ≼ x → x ≼ fone → fzero ≼ k → (fzero ≼ d.powf x k) × (d.powf x k ≼ fone)
  -- Rounding and the casts.
  pub round_mono : (x y : F) → x ≼ y → d.round x ≼ d.round y
  pub round_integer : (n : ℕ) → n ≤ 1000 → d.round (d.decimal n 0) ≡ d.decimal n 0
  pub to_u64_mono : (x y : F) → x ≼ y → d.to_u64 x ≤ d.to_u64 y
  pub to_u64-lt : (x : F) → d.to_u64 x < u64_mod
  pub to_u64_integer : (n : ℕ) → n ≤ 1000 → d.to_u64 (d.decimal n 0) ≡ n
  pub of_u64_mono : (m n : ℕ) → m ≤ n → d.of_u64 m ≼ d.of_u64 n
  pub of_u64_one : d.of_u64 1 ≡ fone
  pub of_u64_nonneg : (n : ℕ) → fzero ≼ d.of_u64 n
  pub of_u64_finite : (n : ℕ) → n < u64_mod → d.is_finite (d.of_u64 n) ≡ true
  -- `1000.0 * 0.01` is exact.
  pub thousand-mul-hundredth : d.mul (d.decimal 1000 0) (d.decimal 1 2) ≡ d.decimal 10 0
  -- Blending a whole number below 2^50 with itself errs by less than a half.
  pub round_convex :
      (a : F) (m : ℕ)
      → fzero ≼ a
      → a ≼ fone
      → m < 2 ^ 50
      → d.to_u64 (d.round (d.add (d.mul a (d.of_u64 m)) (d.mul (d.sub fone a) (d.of_u64 m)))) ≡ m
