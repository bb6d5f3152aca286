-- ===== src/EventMap/Codec/Decode.antt =====
-- dtype/dtype.go, Decode and convertValue.
use aionet.Common.{
  ℕ, Bool, true, false, ◌&&◌, List, [], ◌∷◌, ◌++◌, Option, none, some, ◌==◌, if◌then◌else◌, Error,
  errorf, Go, ret, panics, nil_dereference, ◌>>=◌, Text, get_key, set_key,
}
use aionet.EventMap.{
  Value, nil, integer, float32, float64, string, bytes, time, go_map, go_slice, err, other, IntType,
  int, int8, int16, int32, int64, uint, uint8, uint16, uint32, uint64, state1, state2, Float, whole,
  HdpEvent,
}
use aionet.EventMap.SerialType.{
  t_nil, t_bool, t_byteslice, t_float32, t_float64, t_int, t_int8, t_int16, t_int32, t_int64,
  t_list, t_map, t_string, t_time, t_uint, t_uint8, t_uint16, t_uint32, t_uint64, t_flag1, t_flag2,
}
use aionet.EventMap.Numbers.{from_float}
use aionet.EventMap.Codec.{
  Kind, number, text, boolean, struct, list, Fields, Library, type_suffix, has_suffix,
}

abbrev pub starts_with : Text → Text → Bool
starts_with [] k = true
starts_with (c ∷ cs) [] = false
starts_with (c ∷ cs) (d ∷ ds) = c == d && starts_with cs ds

-- `strings.Split(k, sep)[0]`.
unfoldable pub before : Text → Text → Text
before sep [] = []
before sep (c ∷ k) = if starts_with sep (c ∷ k) then [] else c ∷ before sep k

-- The case of a switch.
abbrev pub case_of {ℓ} : {A : Type ℓ} → List (ℕ × A) → ℕ → Option A
case_of [] t = none
case_of ((u, a) ∷ cs) t = if t == u then some a else case_of cs t

module _ (lib : Library) where
  open lib use {
    marshal, unmarshal, new_struct, new_list, as_map, as_slice, bool_wrapper, to_base64,
    from_base64, is_valid_utf8, to_float32, out_of_range,
  }

  abbrev pub not_deserializable : Value
  not_deserializable = err (errorf "%T is not deserializable" [])

  -- A case of convertValue that takes a number, a text or one of the others.
  abbrev pub of_number : (Float → Value) → Kind → Value
  of_number f (number x) = f x
  of_number f v = not_deserializable

  abbrev pub of_text : (Text → Value) → Kind → Value
  of_text f (text s) = f s
  of_text f v = not_deserializable

  abbrev pub of_boolean : (Bool → Value) → Kind → Value
  of_boolean f (boolean b) = f b
  of_boolean f v = not_deserializable

  abbrev pub of_list : (ℕ → Value) → Kind → Value
  of_list f (list a) = f a
  of_list f v = not_deserializable

  abbrev pub of_struct : (ℕ → Value) → Kind → Value
  of_struct f (struct a) = f a
  of_struct f v = not_deserializable

  abbrev pub decoded_bytes : Option (List ℕ) → Value
  decoded_bytes none = err (errorf "base64 byteslice decoding failed : %v" [])
  decoded_bytes (some b) = bytes b

  abbrev pub as_int : IntType → Kind → Value
  as_int t = of_number (λ x. integer t (from_float out_of_range t x))

  -- The cases of convertValue but that of t_nil.
  unfoldable pub converters : List (ℕ × (Kind → Value))
  unfolding from_float
  converters =
      (t_bool, of_boolean (λ b. other (bool_wrapper b)))
      ∷ (t_byteslice, of_text (λ s. decoded_bytes (from_base64 s)))
      ∷ (t_float32, of_number (λ x. float32 (to_float32 x)))
      ∷ (t_float64, of_number float64)
      ∷ (t_int, as_int int)
      ∷ (t_int8, as_int int8)
      ∷ (t_int16, as_int int16)
      ∷ (t_int32, as_int int32)
      ∷ (t_int64, as_int int64)
      ∷ (t_list, of_list (λ a. go_slice (as_slice a)))
      ∷ (t_map, of_struct (λ a. go_map (as_map a)))
      ∷ (t_string, of_text string)
      ∷ (t_time, of_number (λ x. time (from_float out_of_range int64 x) 0))
      ∷ (t_uint, as_int uint)
      ∷ (t_uint8, as_int uint8)
      ∷ (t_uint16, as_int uint16)
      ∷ (t_uint32, as_int uint32)
      ∷ (t_uint64, as_int uint64)
      ∷ (t_flag1, as_int state1)
      ∷ (t_flag2, as_int state2)
      ∷ []

  -- `convertValue`, where `none` is a nil *Value: the cases look at its kind.
  unfoldable pub convert_value : ℕ → Option Kind → Go Value
  unfolding converters
  convert_value t o = if t == t_nil then ret nil else elim (case_of converters t) [
    | none ↦ ret not_deserializable
    | some f ↦ elim o [ none ↦ panics nil_dereference | some kind ↦ ret (f kind) ]
  ]

  abbrev pub number_value : Kind → Float
  number_value (number x) = x
  number_value v = whole false 0

  -- The first loop of Decode, over the fields in the order of the iteration: the map from names to
  -- types and the list of names.
  unfoldable pub field_types : Fields → List (Text × ℕ) → List Text → List (Text × ℕ) × List Text
  unfolding has_suffix before type_suffix from_float
  field_types [] ftype names = (ftype, names)
  field_types ((k, kind) ∷ fs) ftype names =
      if has_suffix type_suffix k
      then field_types fs
          (set_key (before type_suffix k) (from_float out_of_range int (number_value kind)) ftype)
          (names ++ (before type_suffix k ∷ []))
      else field_types fs ftype names

  abbrev pub or_zero : Option ℕ → ℕ
  or_zero none = 0
  or_zero (some n) = n

  -- The second loop of Decode.
  unfoldable pub convert_fields : List Text → List (Text × ℕ) → Fields → HdpEvent → Go HdpEvent
  unfolding convert_value
  convert_fields [] ftype fs r = ret r
  convert_fields (name ∷ names) ftype fs r =
      convert_value (or_zero (get_key name ftype)) (get_key name fs) >>= λ v.
      convert_fields names ftype fs (set_key name v r)

  -- Decode after its call of UnmarshalJSON: the event afterwards, and the error.
  unfoldable pub decode_fields : HdpEvent → Option Fields → Go (HdpEvent × Option Error)
  unfolding field_types convert_fields
  decode_fields r none = ret (r, some (errorf "proto: syntax error" []))
  decode_fields r (some fs) =
      let p = field_types fs [] [] in convert_fields p.1 p.0 fs r >>= λ m. ret (m, none)

  -- `Decode`.
  unfoldable pub decode : List ℕ → HdpEvent → Go (HdpEvent × Option Error)
  unfolding decode_fields
  decode b r = decode_fields r (unmarshal b)
