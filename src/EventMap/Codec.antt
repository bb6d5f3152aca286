-- ===== src/EventMap/Codec.antt =====
-- dtype/dtype.go, Encode: an event as a JSON object that has, beside each key, the type of its
-- value under the key with "/type" behind it.
pub mod Decode
pub mod Values
pub mod Names
pub mod Sends
pub mod Trips
pub mod Orphans
use aionet.Common.{
  ℕ, ◌-◌, Bool, true, false, ◌&&◌, not, List, [], ◌∷◌, ◌++◌, Option, none, some, ◌⊎◌, inl, inr,
  ◌==◌, leb, if◌then◌else◌, length, drop, Error, errorf, Go, ret, panics, nil_dereference, raised,
  ◌>>=◌, Text, ascii, same_text, get_key, set_key,
}
use aionet.EventMap.{
  Value, nil, bool, integer, float32, float64, string, bytes, time, go_map, go_slice, err, other,
  IntType, int, int8, int16, int32, int64, uint, uint8, uint16, uint32, uint64, state1, state2,
  Float, whole, HdpEvent,
}
use aionet.EventMap.SerialType.{
  t_nil, t_bool, t_byteslice, t_float32, t_float64, t_int, t_int8, t_int16, t_int32, t_int64,
  t_list, t_map, t_string, t_time, t_uint, t_uint8, t_uint16, t_uint32, t_uint64, t_flag1, t_flag2,
}
use aionet.EventMap.Numbers.{to_float, from_float}

-- The types of package structpb: the kind of a value, and a struct by its fields. Values nested in
-- a list or a struct stay behind its address.
pub data Kind : Type 0 where
  null : Kind
  number : Float → Kind
  text : Text → Kind
  boolean : Bool → Kind
  struct list : ℕ → Kind

abbrev pub Fields : Type 0
Fields = List (Text × Kind)

-- What Encode and Decode call: the JSON of a struct, the constructors and readers of nested values
-- and the address of a *Value_BoolValue (package structpb), base64 and the test for valid UTF-8
-- (the standard library), rounding to float32, and the conversions that Go leaves to the
-- implementation.
pub record Library : Type 0 where
  pub marshal : Fields → Option (List ℕ)
  pub unmarshal : List ℕ → Option Fields
  pub new_struct : ℕ → Option ℕ
  pub new_list : ℕ → Option ℕ
  pub as_map : ℕ → ℕ
  pub as_slice : ℕ → ℕ
  pub bool_wrapper : Bool → ℕ
  pub to_base64 : List ℕ → Text
  pub from_base64 : Text → Option (List ℕ)
  pub is_valid_utf8 : Text → Bool
  pub to_float32 : Float → Float
  pub out_of_range : IntType → Float → ℕ

-- `strings.HasSuffix`.
unfoldable pub has_suffix : Text → Text → Bool
has_suffix suffix k =
    leb (length suffix) (length k) && same_text (drop (length k - length suffix) k) suffix

unfoldable pub type_suffix : Text
type_suffix = ascii "/type"

unfoldable pub event_ch_suffix : Text
event_ch_suffix = ascii "eventCh"

-- What Encode makes of one value: two fields, nothing, or an error.
pub data Entry : Type 0 where
  entry : Kind → ℕ → Entry
  skipped : Entry
  failed : Error → Entry

abbrev pub nested : (ℕ → Kind) → ℕ → Option ℕ → Entry
nested kind t none = failed (errorf "proto: invalid type" [])
nested kind t (some a) = entry (kind a) t

module _ (lib : Library) where
  open lib use {
    marshal, unmarshal, new_struct, new_list, as_map, as_slice, bool_wrapper, to_base64,
    from_base64, is_valid_utf8, to_float32, out_of_range,
  }

  -- The cases of Encode.
  unfoldable pub encode_value : Text → Value → Go Entry
  unfolding to_float
  encode_value k nil = ret (entry null t_nil)
  encode_value k (bool b) = ret (entry (boolean b) t_bool)
  encode_value k (integer int n) = ret (entry (number (to_float int n)) t_int)
  encode_value k (integer int8 n) = ret (entry (number (to_float int8 n)) t_int8)
  encode_value k (integer int16 n) = ret (entry (number (to_float int16 n)) t_int16)
  encode_value k (integer int32 n) = ret (entry (number (to_float int32 n)) t_int32)
  encode_value k (integer int64 n) = ret (entry (number (to_float int64 n)) t_int64)
  encode_value k (integer uint n) = ret (entry (number (to_float uint n)) t_uint)
  encode_value k (integer uint8 n) = ret (entry (number (to_float uint8 n)) t_uint8)
  encode_value k (integer uint16 n) = ret (entry (number (to_float uint16 n)) t_uint16)
  encode_value k (integer uint32 n) = ret (entry (number (to_float uint32 n)) t_uint32)
  encode_value k (integer uint64 n) = ret (entry (number (to_float uint64 n)) t_uint64)
  encode_value k (float32 x) = ret (entry (number x) t_float32)
  encode_value k (float64 x) = ret (entry (number x) t_float64)
  encode_value k (string s) = ret (
      if not (is_valid_utf8 s)
      then failed (errorf "invalid UTF-8 in string: %q" [])
      else entry (text s) t_string)
  encode_value k (time n a) = ret (entry (number (to_float int64 n)) t_time)
  encode_value k (bytes b) = ret (entry (text (to_base64 b)) t_byteslice)
  encode_value k (go_map a) = ret (nested struct t_map (new_struct a))
  encode_value k (go_slice a) = ret (nested list t_list (new_list a))
  encode_value k (integer state1 n) = ret (entry (number (to_float state1 n)) t_flag1)
  encode_value k (integer state2 n) = ret (entry (number (to_float state2 n)) t_flag2)
  encode_value k v =
      if not (has_suffix event_ch_suffix k)
      then panics (raised "%s type %T is unserializable")
      else ret skipped

  -- The loop of Encode over the event, with the fields made so far.
  unfoldable pub encode_from : HdpEvent → Fields → Go (Error ⊎ Fields)
  unfolding encode_value
  encode_from [] x = ret (inr x)
  encode_from ((k, v) ∷ r) x = encode_value k v >>= λ e. elim e [
    | entry kind t ↦
        encode_from r (set_key (k ++ type_suffix) (number (to_float int t)) (set_key k kind x))
    | skipped ↦ encode_from r x
    | failed e1 ↦ ret (inl e1)
  ]

  abbrev pub document : Option (List ℕ) → Error ⊎ List ℕ
  document none = inl (errorf "proto: marshal" [])
  document (some b) = inr b

  abbrev pub marshalled : Error ⊎ Fields → Error ⊎ List ℕ
  marshalled (inl e) = inl e
  marshalled (inr x) = document (marshal x)

  -- `Encode`.
  unfoldable pub encode : HdpEvent → Go (Error ⊎ List ℕ)
  unfolding encode_from
  encode r = encode_from r [] >>= λ x. ret (marshalled x)
