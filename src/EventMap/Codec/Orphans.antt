-- ===== src/EventMap/Codec/Orphans.antt =====
-- dtype/dtype.go, Decode on a document that names the type of a key that it does not have.
use aionet.Common.{
  Error, ℕ, ◌≡◌, ◌<◌, ◌∙◌, ap, refl, List, [], ◌∷◌, ◌++◌, Option, none, some, Go, panics, ret,
  ◌>>=◌, nil_dereference, arith, Text, same_text_refl, same_text_ne, get_key, set_key,
}
use aionet.EventMap.{Value, HdpEvent, int}
use aionet.EventMap.Numbers.{to_float}
use aionet.EventMap.Numbers.Exact.{from_float-to_float}
use aionet.EventMap.Codec.{number, Fields, Library, type_suffix}
use aionet.EventMap.Codec.Decode.{
  convert_fields, or_zero, convert_value, converters, field_types, decode, decode_fields,
}
use aionet.EventMap.Codec.Names.{IsName, has_suffix-append, name_is_no_type}
use aionet.EventMap.Codec.Trips.{small_type}

module _ (lib : Library) where
  convert_missing : (t : ℕ) → 0 < t → t < 21 → convert_value lib t none ≡ panics nil_dereference
  unfolding convert_value converters
  convert_missing t h h2 = ground arith

  abbrev orphan : Text → ℕ → Fields
  orphan k t = (k ++ type_suffix, number (to_float int t)) ∷ []

  field_types-orphan :
      (k : Text) (t : ℕ)
      → IsName k
      → t < 21
      → field_types lib (orphan k t) [] [] ≡ ((k, t) ∷ [], k ∷ [])
  unfolding field_types
  field_types-orphan k t n h =
      rw
        (
          has_suffix-append k type_suffix,
          n.first_part,
          from_float-to_float lib.out_of_range int t (small_type lib t h),
        )
        refl

  orphan_absent : (k : Text) (t : ℕ) → IsName k → get_key k (orphan k t) ≡ none
  orphan_absent k t n = rw (same_text_ne (k ++ type_suffix) k (name_is_no_type k k n)) refl

  own_type : (k : Text) (t : ℕ) → get_key k ((k, t) ∷ []) ≡ some t
  own_type k t = rw (same_text_refl k) refl

  -- A document whose only field names, for a key without "/type", one of the types beside t_nil,
  -- makes Decode panic with a nil dereference, whatever event it is called on.
  pub decode-orphan :
      (k : Text) (t : ℕ) (b : List ℕ) (to : HdpEvent)
      → IsName k
      → 0 < t
      → t < 21
      → lib.unmarshal b ≡ some ((k ++ type_suffix, number (to_float int t)) ∷ [])
      → decode lib b to ≡ panics nil_dereference
  unfolding decode decode_fields convert_fields
  decode-orphan k t b to n h h2 u =
      ap (decode_fields lib to) u
      ∙ ap (λ p. convert_fields lib p.1 p.0 (orphan k t) to >>= done) (field_types-orphan k t n h2)
      ∙ ap (λ o. (convert_value lib (or_zero lib o) (get_key k (orphan k t)) >>= rest) >>= done)
          (own_type k t)
      ∙ ap (λ o. (convert_value lib t o >>= rest) >>= done) (orphan_absent k t n)
      ∙ ap (λ o. (o >>= rest) >>= done) (convert_missing t h h2)
    where
      rest : Value → Go HdpEvent
      rest v = convert_fields lib [] ((k, t) ∷ []) (orphan k t) (set_key k v to)

      done : HdpEvent → Go (HdpEvent × Option Error)
      done m = ret (m, none)
