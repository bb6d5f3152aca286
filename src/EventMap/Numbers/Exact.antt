-- ===== src/EventMap/Numbers/Exact.antt =====
-- Integers that a float64 has exactly, and the way to a float and back.
use aionet.Common.{
  ℕ, ◌≡◌, ◌<◌, ◌-◌, ◌%◌, refl, ap, true, false, inl, inr, Bool-cases, arith, Bool, ◌∙◌,
  if◌then◌else◌,
}
use native.Mathlib.Nat.{mod-eq_of_lt}
use aionet.EventMap.{IntType, Float, whole}
use aionet.EventMap.Numbers.{
  modulus, is_signed, is_negative, two_53, round_53, to_float, from_float, whole_part, fits,
  pattern_of,
}

-- The magnitude of a pattern's value.
unfoldable pub magnitude : IntType → ℕ → ℕ
unfolding is_negative
magnitude t n = if is_negative t n then modulus t - n else n

-- n is a pattern of the type whose value has at most 53 bits.
pub record IsExact (t : IntType) (n : ℕ) : Type 0 where
  pub in_range : n < modulus t
  pub small : magnitude t n < two_53

round_53-small : (m : ℕ) → m < two_53 → round_53 m ≡ m
unfolding round_53
round_53-small m h = ground arith

from_float-whole :
    (out_of_range : IntType → Float → ℕ) (t : IntType) (s : Bool) (m : ℕ)
    → fits t s m ≡ true
    → from_float out_of_range t (whole s m) ≡ pattern_of t s m
unfolding from_float whole_part
from_float-whole out_of_range t s m h = rw h refl

to_float-negative :
    (t : IntType) (n : ℕ)
    → is_negative t n ≡ true
    → magnitude t n < two_53
    → to_float t n ≡ whole true (modulus t - n)
unfolding to_float magnitude
to_float-negative t n e h = rw (e, round_53-small (modulus t - n) (rw e at h)) refl

to_float-positive :
    (t : IntType) (n : ℕ)
    → is_negative t n ≡ false
    → magnitude t n < two_53
    → to_float t n ≡ whole false n
unfolding to_float magnitude
to_float-positive t n e h = rw (e, round_53-small n (rw e at h)) refl

fits-negative :
    (t : IntType) (n : ℕ)
    → is_negative t n ≡ true
    → n < modulus t
    → fits t true (modulus t - n) ≡ true
unfolding fits is_negative
fits-negative t n e h = elim (Bool-cases (is_signed t)) [
  | inl q ↦ rw q (ground arith)
  | inr q ↦ ground arith
]

fits-positive :
    (t : IntType) (n : ℕ) → is_negative t n ≡ false → n < modulus t → fits t false n ≡ true
unfolding fits is_negative
fits-positive t n e h = elim (Bool-cases (is_signed t)) [
  | inl q ↦ rw q (ground arith)
  | inr q ↦ rw q (ground arith)
]

pattern_of-negative : (t : IntType) (n : ℕ) → n < modulus t → pattern_of t true (modulus t - n) ≡ n
unfolding pattern_of
pattern_of-negative t n h = ap (λ x. x % modulus t) (omega arith) ∙ mod-eq_of_lt h

pattern_of-positive : (t : IntType) (n : ℕ) → pattern_of t false n ≡ n
unfolding pattern_of
pattern_of-positive t n = refl

-- An integer that a float64 has exactly comes back from it.
pub from_float-to_float :
    (out_of_range : IntType → Float → ℕ) (t : IntType) (n : ℕ)
    → IsExact t n
    → from_float out_of_range t (to_float t n) ≡ n
from_float-to_float out_of_range t n h = elim (Bool-cases (is_negative t n)) [
  | inl e ↦
      ap (from_float out_of_range t) (to_float-negative t n e h.small)
      ∙ from_float-whole out_of_range t true (modulus t - n) (fits-negative t n e h.in_range)
      ∙ pattern_of-negative t n h.in_range
  | inr e ↦
      ap (from_float out_of_range t) (to_float-positive t n e h.small)
      ∙ from_float-whole out_of_range t false n (fits-positive t n e h.in_range)
      ∙ pattern_of-positive t n
]
