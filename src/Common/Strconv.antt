-- ===== src/Common/Strconv.antt =====
-- strconv.ParseInt in base 10, with its signed result.
use Prim.Native.Nat.{ℕ, zero, suc, ◌+◌, ◌-◌, ◌*◌, ◌^◌}
use mathlib.Core.Bool.{Bool, ◌&&◌}
use mathlib.Core.Option.{Option, none, some}
use mathlib.Core.List.{[], ◌∷◌}
use android_lib_box_lite.Common.Tests.{ltb, leb, ◌==◌, if◌then◌else◌, ◌>>=◌}
use android_lib_box_lite.Common.Bytes.{Str}

-- A Go int64 or int: `negsuc n` is -(n + 1).
pub data ℤ : Type 0 where
  pos : ℕ → ℤ
  negsuc : ℕ → ℤ

unfoldable pub is_digit : ℕ → Bool
is_digit c = leb b'0' c && leb c b'9'

-- The value of a string of decimal digits after the value `acc`; `none` on any other byte.
unfoldable pub digits_from : ℕ → Str → Option ℕ
unfolding is_digit
digits_from acc [] = some acc
digits_from acc (c ∷ s) =
    let rest = digits_from (acc * 10 + (c - b'0')) s in if is_digit c then rest else none

unfoldable pub parse_digits : Str → Option ℕ
unfolding digits_from
parse_digits [] = none
parse_digits (c ∷ s) = digits_from 0 (c ∷ s)

abbrev pub negated : ℕ → ℤ
negated zero = pos 0
negated (suc n) = negsuc n

-- strconv.ParseInt(s, 10, bits): an optional sign, at least one digit, and the value in range. Both
-- of its errors are `none`.
abbrev in_range_pos : ℕ → ℕ → Option ℤ
in_range_pos bits n = if ltb n (2 ^ (bits - 1)) then some (pos n) else none

abbrev in_range_neg : ℕ → ℕ → Option ℤ
in_range_neg bits n = if leb n (2 ^ (bits - 1)) then some (negated n) else none

unfoldable pub parse_int : Str → ℕ → Option ℤ
unfolding parse_digits
parse_int [] bits = none
parse_int (c ∷ s) bits =
    if c == b'-'
    then parse_digits s >>= in_range_neg bits
    else if c == b'+'
    then parse_digits s >>= in_range_pos bits
    else parse_digits (c ∷ s) >>= in_range_pos bits
