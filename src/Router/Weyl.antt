-- ===== src/Router/Weyl.antt =====
-- The Weyl sequence: `WEYL_STEP` is odd, so the counter and the spread determine each other.
use native.Mathlib.Nat.{
  mul-lt-mul_of_pos_right, mul-le-mul_right, lt-div-mul-add, div-mul-le_self,
  lt_of_mul-lt-mul_right,
}
use sturnus.Prelude.{ℕ, ◌+◌, ◌-◌, ◌*◌, ◌/◌, ◌%◌, ◌^◌, ◌≤◌, ◌<◌, ◌≡◌, arith}
use sturnus.F64.{u64_mod}
use sturnus.Router.{spread_of, position}

-- The inverse of `WEYL_STEP` modulo 2^64.
abbrev weyl_inverse : ℕ
weyl_inverse = 0xf1de83e19937733d

-- The tick that has a given spread.
unfoldable pub tick_of : ℕ → ℕ
tick_of spread = spread * weyl_inverse % u64_mod

pub tick_of-spread_of : (n : ℕ) → n < u64_mod → tick_of (spread_of n) ≡ n
unfolding tick_of spread_of
tick_of-spread_of n h = omega arith

-- The counter's 2^64 values and the spreads below 2^64 are in bijection.
pub spread_of-bijective :
    (n : ℕ)
    → n < u64_mod
    → (tick_of (spread_of n) ≡ n)
      × (spread_of (tick_of n) ≡ n)
      × (spread_of n < u64_mod)
      × (tick_of n < u64_mod)
unfolding tick_of spread_of
spread_of-bijective n h = (tick_of-spread_of n h, omega arith, omega arith, omega arith)

-- The position lies below the total, and in the part of the line where the spread falls.
pub position_between :
    (spread total : ℕ)
    → spread < u64_mod
    → total < u64_mod
    → 0 < total
    → (position spread total < total)
      × (position spread total * 2 ^ 64 ≤ spread * total)
      × (spread * total < (position spread total + 1) * 2 ^ 64)
unfolding position
position_between spread total h k p =
    let below : spread * total < u64_mod * total = mul-lt-mul_of_pos_right h p in
    (omega arith, omega arith, omega arith)

-- The least spread at which the position is `lo` or more.
abbrev first_spread : ℕ → ℕ → ℕ
first_spread lo total = (lo * u64_mod + (total - 1)) / total

first_spread_bounds :
    (lo total : ℕ)
    → 0 < total
    → (lo * u64_mod ≤ first_spread lo total * total)
      × (first_spread lo total * total < lo * u64_mod + total)
first_spread_bounds lo total p = (
  omega (arith, lt-div-mul-add {a = lo * u64_mod + (total - 1)} p),
  omega (arith, div-mul-le_self (lo * u64_mod + (total - 1)) total),
)

-- Where a part of the line has length 1 or more and the total is at most 2^64, some tick falls in it.
pub tick_for :
    (lo total : ℕ)
    → 0 < total
    → total < u64_mod
    → lo < total
    → (n : ℕ) × (n < u64_mod) × (position (spread_of n) total ≡ lo)
tick_for lo total p q h = (
  tick_of x,
  (spread_of-bijective x small).3,
  rw (spread_of-bijective x small).1 (
      let b = position_between x total small q p in
      let f = first_spread_bounds lo total p in omega (arith, b.1, b.2, f.0, f.1)),
)
  where
    x : ℕ
    x = first_spread lo total

    small : x < u64_mod
    small =
        lt_of_mul-lt-mul_right total
          (omega (arith, first_spread_bounds lo total p, mul-le-mul_right u64_mod h))
