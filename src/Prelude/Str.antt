-- ===== src/Prelude/Str.antt =====
-- What the source uses of `str`: over native texts, and over lists of code points where characters
-- are inspected.
use Prim.Native.Nat.{ℕ, ◌+◌, ◌-◌, ◌*◌}
use Prim.Native.Char.{Char, code}
use Prim.Native.String.{String}
use mathlib.Core.Bool.{Bool, ◌&&◌, ◌||◌}
use mathlib.Core.Option.{Option, none, some}
use mathlib.Core.List.{List, [], ◌∷◌}
use sturnus.Prelude.Tests.{leb, if◌then◌else◌}
use sturnus.Prelude.Equality.{◌==◌, nat_eq}

abbrev pub Text : Type 0
Text = List ℕ

-- `char::is_whitespace`
unfoldable pub is_whitespace : ℕ → Bool
is_whitespace c =
    c == b' '
    || (leb 9 c && leb c 13)
    || c == 0x85
    || c == 0xa0
    || c == 0x1680
    || (leb 0x2000 c && leb c 0x200a)
    || c == 0x2028
    || c == 0x2029
    || c == 0x202f
    || c == 0x205f
    || c == 0x3000

-- `str::trim`
unfoldable pub trim_start : Text → Text
trim_start [] = []
trim_start (c ∷ s) = let shorter = trim_start s in if is_whitespace c then shorter else c ∷ s

unfoldable pub trim_end : Text → Text
trim_end [] = []
trim_end (c ∷ s) = elim (trim_end s) [
  | [] ↦ if is_whitespace c then [] else c ∷ []
  | x ∷ kept ↦ c ∷ x ∷ kept
]

unfoldable pub trim : Text → Text
unfolding trim_start trim_end is_whitespace
trim s = trim_end (trim_start s)

-- The loop of `u64::from_str` over the digits; it fails on overflow.
unfoldable pub digits_from : ℕ → Text → Option ℕ
digits_from acc [] = some acc
digits_from acc (c ∷ s) =
    let n : ℕ = acc * 10 + (c - b'0') in
    let rest = digits_from n s in
    if leb b'0' c && leb c b'9' && leb n 0xffff_ffff_ffff_ffff then rest else none

-- `str::parse::<u64>().ok()`: digits, after one `+` if there is one.
unfoldable pub parse_u64 : Text → Option ℕ
unfolding digits_from nat_eq
parse_u64 [] = none
parse_u64 (c ∷ []) = if c == b'+' then none else digits_from 0 (c ∷ [])
parse_u64 (c ∷ d ∷ s) = if c == b'+' then digits_from 0 (d ∷ s) else digits_from 0 (c ∷ d ∷ s)

abbrev pub is_char : Char → ℕ → Bool
is_char c n = code c == n

-- `trim_end_matches('/')`
unfoldable pub trim_end_slashes : String → String
unfolding nat_eq
trim_end_slashes String.[] = String.[]
trim_end_slashes (String.◌∷◌ c s) = elim (trim_end_slashes s) [
  | String.[] ↦ if is_char c b'/' then String.[] else String.◌∷◌ c String.[]
  | String.◌∷◌ x kept ↦ String.◌∷◌ c (String.◌∷◌ x kept)
]

-- `strip_prefix`
unfoldable pub strip_prefix : String → String → Option String
unfolding nat_eq
strip_prefix s String.[] = some s
strip_prefix String.[] (String.◌∷◌ p ps) = none
strip_prefix (String.◌∷◌ c s) (String.◌∷◌ p ps) =
    if is_char c (code p) then strip_prefix s ps else none

abbrev front : Char → Option (String × String) → Option (String × String)
front c none = none
front c (some (before, after)) = some (String.◌∷◌ c before, after)

-- `split_once('/')`: at the first slash.
unfoldable pub split_once_slash : String → Option (String × String)
unfolding nat_eq
split_once_slash String.[] = none
split_once_slash (String.◌∷◌ c s) =
    let later = front c (split_once_slash s) in
    if is_char c b'/' then some (String.[], s) else later

-- The code points of a text.
unfoldable pub code_points : String → Text
code_points String.[] = []
code_points (String.◌∷◌ c s) = code c ∷ code_points s
