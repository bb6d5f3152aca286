-- ===== src/EventMap/Codec/Trips.antt =====
-- dtype/dtype.go, Encode and Decode on whole events.
use aionet.Common.{
  ℕ, ◌≡◌, ◌<◌, ◌∙◌, ap, sym, refl, List, [], ◌∷◌, ◌++◌, none, some, inr, Go, ret, ◌>>=◌, arith,
  Text, same_text_refl, same_text_ne, get_key, set_key, get_key-set_key, append-nil, append_assoc,
}
use aionet.EventMap.{Value, HdpEvent, int}
use aionet.EventMap.Numbers.{to_float, is_negative}
use aionet.EventMap.Numbers.Exact.{IsExact, magnitude, from_float-to_float}
use aionet.EventMap.Codec.{Kind, number, Fields, Library, encode, marshalled, document, type_suffix}
use aionet.EventMap.Codec.Decode.{
  convert_value, convert_fields, field_types, decode, decode_fields, or_zero,
}
use aionet.EventMap.Codec.Names.{has_suffix-append, get_key-append, absent_cons}
use aionet.EventMap.Build.{keys_of}
use aionet.EventMap.Build.Pairs.{set_all}
use aionet.EventMap.Codec.Sends.{
  kind_of, type_of, fields_of, IsSendable, IsFresh, none-IsFresh, two_fields, more-IsFresh,
  encode_value-portable, encode_from_lem,
}

module _ (lib : Library) where
  -- The types of r's keys, set on top of others.
  abbrev types_onto : HdpEvent → List (Text × ℕ) → List (Text × ℕ)
  types_onto [] ft = ft
  types_onto ((k, v) ∷ r) ft = types_onto r (set_key k (type_of lib k v) ft)

  pub small_type : (t : ℕ) → t < 21 → IsExact int t
  unfolding magnitude is_negative
  small_type t h = record { in_range = omega arith; small = ground arith }

  field_types_lem :
      (r : HdpEvent) (ft : List (Text × ℕ)) (names : List Text)
      → IsSendable lib r
      → field_types lib (fields_of lib r) ft names ≡ (types_onto r ft, names ++ keys_of r)
  unfolding field_types
  field_types_lem [] ft names s = ap (λ y. (ft, y)) (sym (append-nil names))
  field_types_lem ((k, v) ∷ r) ft names s =
      let (e, c, small) = encode_value-portable lib k v s.2 in
      rw
        (
          s.0.no_suffix,
          has_suffix-append k type_suffix,
          s.0.first_part,
          from_float-to_float lib.out_of_range int (type_of lib k v)
              (small_type (type_of lib k v) small),
        )
        (field_types_lem r (set_key k (type_of lib k v) ft) (names ++ (k ∷ [])) s.3
          ∙ ap (λ y. (types_onto r (set_key k (type_of lib k v) ft), y))
              (append_assoc names (k ∷ []) (keys_of r)))

  get_key-types_onto :
      (r : HdpEvent) (ft : List (Text × ℕ)) (k : Text)
      → get_key k r ≡ none
      → get_key k (types_onto r ft) ≡ get_key k ft
  get_key-types_onto [] ft k h = refl
  get_key-types_onto ((j, v) ∷ r) ft k h =
      let (ne, rest) = absent_cons k j v r h in
      get_key-types_onto r (set_key j (type_of lib j v) ft) k rest
      ∙ rw (get_key-set_key j k (type_of lib j v) ft, same_text_ne j k (λ e. ne (sym e))) refl

  get_key_set {ℓ} :
      {A : Type ℓ} (k : Text) (v : A) (m : List (Text × A)) → get_key k (set_key k v m) ≡ some v
  get_key_set k v m = get_key-set_key k k v m ∙ rw (same_text_refl k) refl

  convert_step :
      (k : Text) (names : List Text) (ft : List (Text × ℕ)) (x : Fields) (to : HdpEvent) (v : Value)
      (t : ℕ) (a : Kind)
      → get_key k ft ≡ some t
      → get_key k x ≡ some a
      → convert_value lib t (some a) ≡ ret v
      → convert_fields lib (k ∷ names) ft x to ≡ convert_fields lib names ft x (set_key k v to)
  unfolding convert_fields
  convert_step k names ft x to v t a e1 e2 e3 =
      let rest : Value → Go HdpEvent = λ w. convert_fields lib names ft x (set_key k w to) in
      ap (λ o. convert_value lib (or_zero lib o) (get_key k x) >>= rest) e1
      ∙ ap (λ o. convert_value lib t o >>= rest) e2
      ∙ ap (λ m. m >>= rest) e3

  convert_fields_lem :
      (r : HdpEvent) (ft : List (Text × ℕ)) (x : Fields) (to : HdpEvent)
      → IsSendable lib r
      → IsFresh lib x r
      → convert_fields lib (keys_of r) (types_onto r ft) (x ++ fields_of lib r) to
        ≡ ret (set_all r to)
  unfolding convert_fields
  convert_fields_lem [] ft x to s h = refl
  convert_fields_lem ((k, v) ∷ r) ft x to s h =
      let a = kind_of lib k v in
      let b = number (to_float int (type_of lib k v)) in
      convert_step k (keys_of r) (types_onto r (set_key k (type_of lib k v) ft))
        (x ++ fields_of lib ((k, v) ∷ r)) to v (type_of lib k v) a
        (get_key-types_onto r (set_key k (type_of lib k v) ft) k s.1
          ∙ get_key_set k (type_of lib k v) ft)
        (get_key-append k x (fields_of lib ((k, v) ∷ r)) h.0 ∙ rw (same_text_refl k) refl)
        (encode_value-portable lib k v s.2).1
      ∙ ap
          (λ y.
            convert_fields lib (keys_of r) (types_onto r (set_key k (type_of lib k v) ft)) y
              (set_key k v to))
          (sym (append_assoc x (two_fields lib k a b) (fields_of lib r)))
      ∙ convert_fields_lem r (set_key k (type_of lib k v) ft) (x ++ two_fields lib k a b)
          (set_key k v to) s.3 (more-IsFresh lib x k a b r s.0 s.1 s.3 h.2)

  -- An event whose keys are names without "/type", each once, and whose values are portable is
  -- encoded without an error or a panic, when its fields have a JSON document; and Decode of that
  -- document, when structpb reads the same fields from it, sets every key of the event to its value
  -- in whatever event it is called on, leaves the other keys as they are and returns no error.
  pub encode-decode :
      (r to : HdpEvent) (b : List ℕ)
      → IsSendable lib r
      → lib.marshal (fields_of lib r) ≡ some b
      → lib.unmarshal b ≡ some (fields_of lib r)
      → (encode lib r ≡ ret (inr b)) × (decode lib b to ≡ ret (set_all r to, none))
  unfolding encode decode decode_fields
  encode-decode r to b s m u = (
    ap (λ o. o >>= λ x. ret (marshalled lib x)) (encode_from_lem lib r [] s (none-IsFresh lib r))
        ∙ ap (λ o. ret (document lib o)) m,
    ap (decode_fields lib to) u
        ∙ ap (λ p. convert_fields lib p.1 p.0 (fields_of lib r) to >>= λ e. ret (e, none))
            (field_types_lem r [] [] s)
        ∙ ap (λ o. o >>= λ e. ret (e, none)) (convert_fields_lem r [] [] to s (none-IsFresh lib r)),
  )
