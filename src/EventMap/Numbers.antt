-- ===== src/EventMap/Numbers.antt =====
-- Go's conversions between the integer types and float64, as dtype/dtype.go and dtype/dtype1.go use
-- them. An integer is its two's complement pattern, at the type's width.
pub mod Exact
use aionet.Common.{
  ℕ, zero, suc, ◌+◌, ◌-◌, ◌*◌, ◌/◌, ◌%◌, Bool, true, false, ◌&&◌, ◌||◌, Option, none, some, ◌==◌,
  ltb, leb, if◌then◌else◌,
}
use aionet.EventMap.{
  IntType, int8, int16, int32, uint, uint8, uint16, uint32, uint64, Float, whole, fraction,
  infinity, nan,
}

-- One more than the greatest pattern of a type.
abbrev pub modulus : IntType → ℕ
modulus int8 = 256
modulus uint8 = 256
modulus int16 = 65536
modulus uint16 = 65536
modulus int32 = 4294967296
modulus uint32 = 4294967296
modulus t = 18446744073709551616

abbrev pub is_signed : IntType → Bool
is_signed uint = false
is_signed uint8 = false
is_signed uint16 = false
is_signed uint32 = false
is_signed uint64 = false
is_signed t = true

-- Whether a value of the type is below 0, by its pattern.
unfoldable pub is_negative : IntType → ℕ → Bool
is_negative t n = is_signed t && leb (modulus t) (n + n)

-- `t(v)` on an integer of another type whose pattern, extended to 64 bits, is n.
unfoldable pub truncate : IntType → ℕ → ℕ
truncate t n = n % modulus t

abbrev pub two_53 : ℕ
two_53 = 9007199254740992

-- m rounded to a multiple of d, the nearest, at a tie the even one.
unfoldable pub half_even : ℕ → ℕ → ℕ
half_even zero m = m
half_even (suc e) m =
    let d = suc e in
    let q = m / d in
    let r = m % d in if ltb (r + r) d || ((r + r == d) && q % 2 == 0) then q * d else (q + 1) * d

-- m to 53 significant bits, for m below 2 ^ 64: a step per bit too many, with the place of the
-- lowest bit kept.
unfoldable pub round_from : ℕ → ℕ → ℕ → ℕ
unfolding half_even
round_from zero place m = half_even place m
round_from (suc k) place m =
    let next = round_from k (place + place) m in
    if ltb m (two_53 * place) then half_even place m else next

unfoldable pub round_53 : ℕ → ℕ
unfolding round_from
round_53 m = if ltb m two_53 then m else round_from 11 1 m

-- `float64(v)`.
unfoldable pub to_float : IntType → ℕ → Float
unfolding is_negative round_53
to_float t n =
    if is_negative t n then whole true (round_53 (modulus t - n)) else whole false (round_53 n)

-- The whole part of a float, with its sign; an infinity and NaN have none.
unfoldable pub whole_part : Float → Option (Bool × ℕ)
whole_part (whole s m) = some (s, m)
whole_part (fraction s m f) = some (s, m)
whole_part (infinity s) = none
whole_part nan = none

-- Whether the type has the value of sign s and magnitude m.
unfoldable pub fits : IntType → Bool → ℕ → Bool
fits t true m = if is_signed t then leb (m + m) (modulus t) else m == 0
fits t false m = if is_signed t then ltb (m + m) (modulus t) else ltb m (modulus t)

unfoldable pub pattern_of : IntType → Bool → ℕ → ℕ
pattern_of t true m = (modulus t - m) % modulus t
pattern_of t false m = m

-- `t(x)`: the whole part. Go leaves a value that the type does not have to the implementation,
-- which is the argument out_of_range.
unfoldable pub from_float : (IntType → Float → ℕ) → IntType → Float → ℕ
unfolding whole_part fits pattern_of
from_float out_of_range t x = elim (whole_part x) [
  | none ↦ out_of_range t x
  | some p ↦ if fits t p.0 p.1 then pattern_of t p.0 p.1 else out_of_range t x
]
