-- ===== src/EventMap/Codec/Sends.antt =====
-- dtype/dtype.go, Encode on whole events: the fields that it makes.
use aionet.Common.{
  ℕ, ◌≡◌, ◌≢◌, ◌<◌, ◌∙◌, ap, sym, refl, [], ◌∷◌, ◌++◌, none, some, inr, Go, ret, Text, same_text_ne,
  get_key, set_key, append-nil, append_assoc,
}
use aionet.EventMap.{Value, HdpEvent, int}
use aionet.EventMap.Numbers.{to_float}
use aionet.EventMap.Codec.{
  Kind, null, number, Fields, Library, Entry, entry, encode_value, encode_from, type_suffix,
}
use aionet.EventMap.Codec.Decode.{convert_value}
use aionet.EventMap.Codec.Values.{IsPortable, portable-Returns}
use aionet.EventMap.Codec.Names.{
  IsName, name_is_no_type, types_apart, set_key-fresh, get_key-append, absent_cons,
}

module _ (lib : Library) where
  abbrev pub kind_in : Go Entry → Kind
  kind_in (ret (entry kind t)) = kind
  kind_in e = null

  abbrev pub type_in : Go Entry → ℕ
  type_in (ret (entry kind t)) = t
  type_in e = 0

  unfoldable pub kind_of : Text → Value → Kind
  kind_of k v = kind_in (encode_value lib k v)

  unfoldable pub type_of : Text → Value → ℕ
  type_of k v = type_in (encode_value lib k v)

  -- The two fields of each key, in the event's order.
  abbrev pub fields_of : HdpEvent → Fields
  fields_of [] = []
  fields_of ((k, v) ∷ r) =
      (k, kind_of k v) ∷ (k ++ type_suffix, number (to_float int (type_of k v))) ∷ fields_of r

  -- Each key is a name, occurs once, and has a portable value.
  abbrev pub IsSendable : HdpEvent → Type 0
  IsSendable [] = Unit
  IsSendable ((k, v) ∷ r) = IsName k × (get_key k r ≡ none) × IsPortable lib v × IsSendable r

  -- No key of r, nor its type's, is in the fields.
  abbrev pub IsFresh : Fields → HdpEvent → Type 0
  IsFresh x [] = Unit
  IsFresh x ((k, v) ∷ r) =
      (get_key k x ≡ none) × (get_key (k ++ type_suffix) x ≡ none) × IsFresh x r

  pub none-IsFresh : (r : HdpEvent) → IsFresh [] r
  none-IsFresh [] = tt
  none-IsFresh ((k, v) ∷ r) = (refl, refl, none-IsFresh r)

  abbrev pub two_fields : Text → Kind → Kind → Fields
  two_fields k a b = (k, a) ∷ (k ++ type_suffix, b) ∷ []

  not_in_two :
      (k j : Text) (a b : Kind)
      → k ≢ j
      → (k ++ type_suffix) ≢ j
      → get_key j (two_fields k a b) ≡ none
  not_in_two k j a b h h2 = rw (same_text_ne k j h, same_text_ne (k ++ type_suffix) j h2) refl

  pub more-IsFresh :
      (x : Fields) (k : Text) (a b : Kind) (r : HdpEvent)
      → IsName k
      → get_key k r ≡ none
      → IsSendable r
      → IsFresh x r
      → IsFresh (x ++ two_fields k a b) r
  more-IsFresh x k a b [] n g s h = tt
  more-IsFresh x k a b ((j, v) ∷ r) n g s h =
      let (ne, rest) = absent_cons k j v r g in
      (
        get_key-append j x (two_fields k a b) h.0 ∙ not_in_two k j a b ne (name_is_no_type k j s.0),
        get_key-append (j ++ type_suffix) x (two_fields k a b) h.1
            ∙ not_in_two k (j ++ type_suffix) a b (λ e. name_is_no_type j k n (sym e))
                (types_apart k j n s.0 ne),
        more-IsFresh x k a b r n rest s.3 h.2,
      )

  pub encode_value-portable :
      (k : Text) (v : Value)
      → IsPortable lib v
      → (encode_value lib k v ≡ ret (entry (kind_of k v) (type_of k v)))
        × (convert_value lib (type_of k v) (some (kind_of k v)) ≡ ret v)
        × (type_of k v < 21)
  unfolding kind_of type_of
  encode_value-portable k v h =
      let (kind, t, e, c, small) = portable-Returns lib v h in rw (e k) (refl, c, small)

  set_two :
      (x : Fields) (k : Text) (a b : Kind)
      → IsName k
      → get_key k x ≡ none
      → get_key (k ++ type_suffix) x ≡ none
      → set_key (k ++ type_suffix) b (set_key k a x) ≡ x ++ two_fields k a b
  set_two x k a b n h h2 =
      ap (set_key (k ++ type_suffix) b) (set_key-fresh k a x h)
      ∙ set_key-fresh (k ++ type_suffix) b (x ++ ((k, a) ∷ [])) (
          get_key-append (k ++ type_suffix) x ((k, a) ∷ []) h2
          ∙ rw (same_text_ne k (k ++ type_suffix) (λ e. name_is_no_type k k n (sym e))) refl)
      ∙ append_assoc x ((k, a) ∷ []) ((k ++ type_suffix, b) ∷ [])

  pub encode_from_lem :
      (r : HdpEvent) (x : Fields)
      → IsSendable r
      → IsFresh x r
      → encode_from lib r x ≡ ret (inr (x ++ fields_of r))
  unfolding encode_from
  encode_from_lem [] x s h = ap (λ y. ret (inr y)) (sym (append-nil x))
  encode_from_lem ((k, v) ∷ r) x s h =
      let a = kind_of k v in
      let b = number (to_float int (type_of k v)) in
      rw ((encode_value-portable k v s.2).0, set_two x k a b s.0 h.0 h.1)
        (encode_from_lem r (x ++ two_fields k a b) s.3 (more-IsFresh x k a b r s.0 s.1 s.3 h.2)
          ∙ ap (λ y. ret (inr y)) (append_assoc x (two_fields k a b) (fields_of r)))
