-- ===== src/EventMap/Codec/Names.antt =====
-- dtype/dtype.go, the keys of an encoded event: names and their types' keys do not meet.
use aionet.Common.{
  ◌≡◌, ◌≢◌, ◌∙◌, ap, sym, refl, true, false, List, [], ◌∷◌, ◌++◌, none, inl, inr, arith, Text,
  same_text, same_text_refl, get_key, set_key, length, drop, length-append, ◌-◌, ◌+◌, Bool-cases,
  inl, inr,
}
use aionet.EventMap.Codec.{has_suffix, type_suffix}
use aionet.EventMap.Codec.Decode.{before}

drop-append_self {ℓ} : {A : Type ℓ} (xs ys : List A) → drop (length xs) (xs ++ ys) ≡ ys
drop-append_self [] ys = refl
drop-append_self (x ∷ xs) ys = drop-append_self xs ys

-- A key that cannot be taken for that of a type: "/type" is not in it.
pub record IsName (k : Text) : Type 0 where
  pub first_part : before type_suffix (k ++ type_suffix) ≡ k
  pub no_suffix : has_suffix type_suffix k ≡ false

pub has_suffix-append : (k s : Text) → has_suffix s (k ++ s) ≡ true
unfolding has_suffix
has_suffix-append k s =
    let e : (length k + length s) - length s ≡ length k = omega arith in
    rw (length-append k s, e, drop-append_self k s, same_text_refl s) (ground arith)

pub name_is_no_type : (k j : Text) → IsName j → (k ++ type_suffix) ≢ j
name_is_no_type k j h e =
    cc (h.no_suffix, has_suffix-append k type_suffix, ap (has_suffix type_suffix) e)

pub types_apart :
    (k j : Text) → IsName k → IsName j → k ≢ j → (k ++ type_suffix) ≢ (j ++ type_suffix)
types_apart k j h i ne e = ne (sym h.first_part ∙ ap (before type_suffix) e ∙ i.first_part)

module _ {ℓ} {A : Type ℓ} where
  pub set_key-fresh :
      (k : Text) (v : A) (m : List (Text × A))
      → get_key k m ≡ none
      → set_key k v m ≡ m ++ ((k, v) ∷ [])
  set_key-fresh k v [] h = refl
  set_key-fresh k v ((j, w) ∷ m) h = ground (arith, set_key-fresh k v m)

  pub get_key-append :
      (k : Text) (m n : List (Text × A)) → get_key k m ≡ none → get_key k (m ++ n) ≡ get_key k n
  get_key-append k [] n h = refl
  get_key-append k ((j, w) ∷ m) n h = ground (arith, get_key-append k m n)

  pub absent_cons :
      (k j : Text) (v : A) (m : List (Text × A))
      → get_key k ((j, v) ∷ m) ≡ none
      → (k ≢ j) × (get_key k m ≡ none)
  absent_cons k j v m h = elim (Bool-cases (same_text j k)) [
    | inl e ↦ ground arith
    | inr e ↦ (λ p. cc (e, same_text_refl k, p), ground arith)
  ]
