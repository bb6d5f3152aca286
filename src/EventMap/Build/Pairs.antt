-- ===== src/EventMap/Build/Pairs.antt =====
-- dtype/dtype.go, add: the loop over the arguments against reading them two at a time.
use aionet.Common.{
  ℕ, suc, ◌≡◌, refl, Bool, true, ◌&&◌, List, [], ◌∷◌, Option, none, some, inl, inr, arith, ◌%◌,
  if◌then◌else◌, is_some, Option-cases, Error, Text, set_key,
}
use aionet.EventMap.{Value, HdpEvent}
use aionet.EventMap.Build.{as_string, add_from, add_pairs, key_error}

-- Each pair of a string and a value, up to a key that is no string.
abbrev pub pairs : List Value → List (Text × Value)
pairs [] = []
pairs (k ∷ []) = []
pairs (k ∷ v ∷ rest) = elim (as_string k) [ none ↦ [] | some key ↦ (key, v) ∷ pairs rest ]

abbrev pub keys_are_strings : List Value → Bool
keys_are_strings [] = true
keys_are_strings (k ∷ []) = is_some (as_string k)
keys_are_strings (k ∷ v ∷ rest) = is_some (as_string k) && keys_are_strings rest

abbrev pub set_all : List (Text × Value) → HdpEvent → HdpEvent
set_all [] r = r
set_all ((k, v) ∷ kvs) r = set_all kvs (set_key k v r)

abbrev pub outcome_of : Bool → Option Error
outcome_of b = if b then none else some key_error

add_from-even :
    (i : ℕ) (key : Text) (args : List Value) (r : HdpEvent)
    → i % 2 ≡ 0
    → add_from i key args r ≡ (set_all (pairs args) r, outcome_of (keys_are_strings args))
unfolding add_from
add_from-even i key [] r h = refl
add_from-even i key (k ∷ []) r h = elim (Option-cases (as_string k)) [
  | inl e ↦ ground arith
  | inr (s, e) ↦ ground arith
]
add_from-even i key (k ∷ v ∷ rest) r h = elim (Option-cases (as_string k)) [
  | inl e ↦ ground arith
  | inr (s, e) ↦ ground (arith, add_from-even (suc (suc i)) s rest (set_key s v r) (omega arith))
]

-- For every list of arguments, `add` reads them two at a time: it stores, in order, each value
-- under the string before it, up to the first key that is no string, and returns the error about
-- the format just when one of the keys, a last one without a value included, is no string; what it
-- stored before stays.
pub add_pairs_lem :
    (args : List Value) (r : HdpEvent)
    → add_pairs args r ≡ (set_all (pairs args) r, outcome_of (keys_are_strings args))
unfolding add_pairs
add_pairs_lem args r = add_from-even 0 [] args r refl
