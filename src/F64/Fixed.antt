-- ===== src/F64/Fixed.antt =====
-- Non-negative decimals with six places and an infinity: arithmetic that runs, and that meets the
-- laws of `F64`.
use sturnus.Prelude.{ℕ, zero, suc, ◌+◌, ◌-◌, ◌*◌, ◌/◌, ◌^◌, min, max, Bool, true, false, ltb, leb}
use sturnus.F64.{F64, u64_max}

pub data Fixed : Type 0 where
  fin : ℕ → Fixed
  inf : Fixed

abbrev scale : ℕ
scale = 1_000_000

abbrev pub literal : ℕ → ℕ → Fixed
literal m e = fin (m * scale / 10 ^ e)

abbrev add : Fixed → Fixed → Fixed
add (fin a) (fin b) = fin (a + b)
add _ _ = inf

abbrev sub : Fixed → Fixed → Fixed
sub (fin a) (fin b) = fin (a - b)
sub inf b = inf
sub (fin a) inf = fin 0

abbrev mul : Fixed → Fixed → Fixed
mul (fin a) (fin b) = fin (a * b / scale)
mul _ _ = inf

abbrev div : Fixed → Fixed → Fixed
div (fin a) (fin zero) = inf
div (fin a) (fin (suc b)) = fin (a * scale / suc b)
div inf b = inf
div (fin a) inf = fin 0

unfoldable pub power : ℕ → ℕ → ℕ
power a zero = scale
power a (suc k) = a * power a k / scale

abbrev powf : Fixed → Fixed → Fixed
powf (fin a) (fin k) = fin (power a (k / scale))
powf (fin a) inf = fin a
powf inf k = inf

abbrev fmin : Fixed → Fixed → Fixed
fmin (fin a) (fin b) = fin (min a b)
fmin inf y = y
fmin (fin a) inf = fin a

abbrev fmax : Fixed → Fixed → Fixed
fmax (fin a) (fin b) = fin (max a b)
fmax _ _ = inf

abbrev round : Fixed → Fixed
round (fin a) = fin ((a + 500_000) / scale * scale)
round inf = inf

abbrev to_u64 : Fixed → ℕ
to_u64 (fin a) = min (a / scale) u64_max
to_u64 inf = u64_max

abbrev is_finite : Fixed → Bool
is_finite (fin a) = true
is_finite inf = false

abbrev le : Fixed → Fixed → Bool
le (fin a) (fin b) = leb a b
le x inf = true
le inf (fin b) = false

abbrev lt : Fixed → Fixed → Bool
lt (fin a) (fin b) = ltb a b
lt (fin a) inf = true
lt inf y = false

instance unfoldable pub fixed_f64 : F64 Fixed
unfolding power
fixed_f64 = record {
  decimal = literal;
  infinity = inf;
  of_u64 = λ n. fin (n * scale);
  add = add;
  sub = sub;
  mul = mul;
  div = div;
  powf = powf;
  fmin = fmin;
  fmax = fmax;
  round = round;
  to_u64 = to_u64;
  is_finite = is_finite;
  lt = lt;
  le = le;
}
