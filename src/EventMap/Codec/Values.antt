-- ===== src/EventMap/Codec/Values.antt =====
-- dtype/dtype.go, the cases of Encode against those of convertValue.
use aionet.Common.{ℕ, ◌≡◌, ◌<◌, ◌∙◌, ap, sym, refl, Bool, true, false, some, ret, arith, Text}
use aionet.EventMap.{
  Value, nil, bool, integer, float32, float64, string, bytes, time, other, IntType, int, int8,
  int16, int32, int64, uint, uint8, uint16, uint32, uint64, state1, state2, Float,
}
use aionet.EventMap.Reads.{bool_of}
use aionet.EventMap.SerialType.{
  t_nil, t_bool, t_byteslice, t_float32, t_float64, t_int, t_int8, t_int16, t_int32, t_int64,
  t_string, t_time, t_uint, t_uint8, t_uint16, t_uint32, t_uint64, t_flag1, t_flag2,
}
use aionet.EventMap.Numbers.{to_float, from_float}
use aionet.EventMap.Numbers.Exact.{IsExact, from_float-to_float}
use aionet.EventMap.Codec.{Kind, null, number, text, boolean, Library, entry, encode_value}
use aionet.EventMap.Codec.Decode.{convert_value, converters, decoded_bytes}

-- The types whose integers have a SerialType.
abbrev pub HasSerialType : IntType → Type 0
HasSerialType IntType.activity = ⊥
HasSerialType IntType.duration = ⊥
HasSerialType t = Unit

-- A value that Encode and Decode keep: an integer of at most 53 bits, a float, a valid string,
-- bytes, nil or a time of whole microseconds.
abbrev pub IsPortable : Library → Value → Type 0
IsPortable lib nil = Unit
IsPortable lib (integer t n) = HasSerialType t × IsExact t n
IsPortable lib (float32 x) = lib.to_float32 x ≡ x
IsPortable lib (float64 x) = Unit
IsPortable lib (string s) = lib.is_valid_utf8 s ≡ true
IsPortable lib (bytes b) = lib.from_base64 (lib.to_base64 b) ≡ some b
IsPortable lib (time n a) = IsExact int64 n × (a ≡ 0)
IsPortable lib v = ⊥

-- Encode gives a value two fields, from which convertValue makes `back`.
abbrev pub Returns : Library → Value → Value → Type 0
Returns lib v back =
    (kind : Kind) × (t : ℕ) × ((k : Text) → encode_value lib k v ≡ ret (entry kind t))
    × (convert_value lib t (some kind) ≡ ret back)
    × (t < 21)

module _ (lib : Library) where
  integer_case :
      (t : IntType) (n place : ℕ)
      → IsExact t n
      → ((k : Text) → encode_value lib k (integer t n) ≡ ret (entry (number (to_float t n)) place))
      → ((x : Float)
          → convert_value lib place (some (number x))
            ≡ ret (integer t (from_float lib.out_of_range t x)))
      → place < 21
      → Returns lib (integer t n) (integer t n)
  integer_case t n place h e c small = (
    number (to_float t n),
    place,
    e,
    c (to_float t n) ∙ ap (λ m. ret (integer t m)) (from_float-to_float lib.out_of_range t n h),
    small,
  )

  integer-Returns :
      (t : IntType) (n : ℕ)
      → HasSerialType t
      → IsExact t n
      → Returns lib (integer t n) (integer t n)
  unfolding encode_value convert_value converters
  integer-Returns int n w h = integer_case int n t_int h (λ k. refl) (λ x. refl) (omega arith)
  integer-Returns int8 n w h = integer_case int8 n t_int8 h (λ k. refl) (λ x. refl) (omega arith)
  integer-Returns int16 n w h = integer_case int16 n t_int16 h (λ k. refl) (λ x. refl) (omega arith)
  integer-Returns int32 n w h = integer_case int32 n t_int32 h (λ k. refl) (λ x. refl) (omega arith)
  integer-Returns int64 n w h = integer_case int64 n t_int64 h (λ k. refl) (λ x. refl) (omega arith)
  integer-Returns uint n w h = integer_case uint n t_uint h (λ k. refl) (λ x. refl) (omega arith)
  integer-Returns uint8 n w h = integer_case uint8 n t_uint8 h (λ k. refl) (λ x. refl) (omega arith)
  integer-Returns uint16 n w h =
      integer_case uint16 n t_uint16 h (λ k. refl) (λ x. refl) (omega arith)
  integer-Returns uint32 n w h =
      integer_case uint32 n t_uint32 h (λ k. refl) (λ x. refl) (omega arith)
  integer-Returns uint64 n w h =
      integer_case uint64 n t_uint64 h (λ k. refl) (λ x. refl) (omega arith)
  integer-Returns state1 n w h =
      integer_case state1 n t_flag1 h (λ k. refl) (λ x. refl) (omega arith)
  integer-Returns state2 n w h =
      integer_case state2 n t_flag2 h (λ k. refl) (λ x. refl) (omega arith)
  integer-Returns IntType.activity n w h = absurd w
  integer-Returns IntType.duration n w h = absurd w

  -- Every portable value comes back as it was: nil, integers of at most 53 bits with their type and
  -- sign, both kinds of floats, valid strings, bytes that base64 gives back, and times of whole
  -- microseconds.
  pub portable-Returns : (v : Value) → IsPortable lib v → Returns lib v v
  unfolding encode_value convert_value converters
  portable-Returns nil h = (null, t_nil, λ k. refl, refl, omega arith)
  portable-Returns (integer t n) h = integer-Returns t n h.0 h.1
  portable-Returns (float32 x) h =
      (number x, t_float32, λ k. refl, ap (λ y. ret (float32 y)) h, omega arith)
  portable-Returns (float64 x) h = (number x, t_float64, λ k. refl, refl, omega arith)
  portable-Returns (string s) h = (text s, t_string, λ k. rw h refl, refl, omega arith)
  portable-Returns (bytes b) h = (
    text (lib.to_base64 b),
    t_byteslice,
    λ k. refl,
    ap (λ o. ret (decoded_bytes lib o)) h,
    omega arith,
  )
  portable-Returns (time n a) h = (
    number (to_float int64 n),
    t_time,
    λ k. refl,
    ap (λ m. ret (time m 0)) (from_float-to_float lib.out_of_range int64 n h.0)
        ∙ ap (λ z. ret (time n z)) (sym h.1),
    omega arith,
  )
  portable-Returns v h = absurd h

  -- A Boolean comes back as a value that no accessor takes for a Boolean: Bool reads it as false.
  pub bool_is_lost :
      (b : Bool) → (back : Value) × (Returns lib (bool b) back × (bool_of back ≡ false))
  unfolding encode_value convert_value converters bool_of
  bool_is_lost b =
      (other (lib.bool_wrapper b), ((boolean b, t_bool, λ k. refl, refl, omega arith), refl))
