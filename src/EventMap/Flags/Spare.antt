-- ===== src/EventMap/Flags/Spare.antt =====
-- dtype/dtype.go, With1 and With2: the spare flag over two calls.
use aionet.Common.{
  ℕ, ◌≡◌, ◌≢◌, refl, true, false, List, [], ◌∷◌, Option, some, ◌⊎◌, inl, inr, arith, Error, Text,
  ◌∙◌, ap, same_text, get_key, set_key, get_key-set_key, Go, ret, ◌>>=◌, Bool, if◌then◌else◌, ==_ne,
  ==_refl,
}
use aionet.EventMap.{Value, nil, integer, state1, state2, IntType, HdpEvent, value}
use aionet.EventMap.Key
use aionet.EventMap.Lookups.{value-set_key_self, value-set_key_ne}
use aionet.EventMap.Build.{with_args, note, add, keep_error, is_data_mark}
use aionet.EventMap.Flags.{with1, with2, with_flag, swap_flag, same_value, is_nil, type_place}

flag1_is_not_aux : same_text Key.flag1 Key.aux_flag ≡ false
unfolding Key.flag1 Key.aux_flag
flag1_is_not_aux = refl

aux_is_not_flag1 : same_text Key.aux_flag Key.flag1 ≡ false
unfolding Key.flag1 Key.aux_flag
aux_is_not_flag1 = refl

with_state1 :
    (n : ℕ) (r : HdpEvent)
    → with_args (integer state1 n ∷ []) (some r) ≡ set_key Key.flag1 (integer state1 n) r
unfolding with_args add note keep_error is_data_mark
with_state1 n r = refl

with_none : (r : HdpEvent) → with_args [] (some r) ≡ r
unfolding with_args add keep_error
with_none r = refl

with_state2 :
    (n : ℕ) (r : HdpEvent)
    → with_args (integer state2 n ∷ []) (some r) ≡ set_key Key.flag2 (integer state2 n) r
unfolding with_args add note keep_error is_data_mark
with_state2 n r = refl

flag2_is_not_aux : same_text Key.flag2 Key.aux_flag ≡ false
unfolding Key.flag2 Key.aux_flag
flag2_is_not_aux = refl

aux_is_not_flag2 : same_text Key.aux_flag Key.flag2 ≡ false
unfolding Key.flag2 Key.aux_flag
aux_is_not_flag2 = refl

choice :
    (t : IntType) (g : ℕ) (again : Bool)
    → ((if again then integer t g ∷ [] else []) ≡ [])
      ⊎ ((if again then integer t g ∷ [] else []) ≡ integer t g ∷ [])
choice t g true = inr refl
choice t g false = inl refl

-- `res` is r with `old` under `key`, nil under "auxFlag" and every other key as it is.
abbrev pub IsRestored : Text → Value → HdpEvent → Go (Option HdpEvent) → Type 0
IsRestored key old r res =
    (m : HdpEvent) × (res ≡ ret (some m))
    × (value key m ≡ old)
    × (value Key.aux_flag m ≡ nil)
    × ((k : Text)
        → same_text key k ≡ false
        → same_text Key.aux_flag k ≡ false
        → get_key k m ≡ get_key k r)

module _ (same_error : Error → Error → Bool) (key : Text) (t : IntType)
    (stores : (n : ℕ) (r : HdpEvent)
      → with_args (integer t n ∷ []) (some r) ≡ set_key key (integer t n) r)
    (apart : same_text key Key.aux_flag ≡ false) (apart_again : same_text Key.aux_flag key ≡ false)
    (f g : ℕ) (r : HdpEvent) where
  abbrev after_set : HdpEvent
  after_set = set_key Key.aux_flag (integer t f) (set_key key (integer t g) r)

  set_state :
      value key r ≡ integer t f
      → f ≢ g
      → with_flag same_error key (integer t g ∷ []) (some r) ≡ ret (some after_set)
  unfolding with_flag swap_flag same_value
  set_state e ne =
      rw
        (
          stores g r,
          value-set_key_self key (integer t g) r,
          e,
          ==_refl (type_place t),
          ==_ne f g ne,
        )
        refl

  value-after_set : value key after_set ≡ integer t g
  value-after_set =
      value-set_key_ne Key.aux_flag key (integer t f) (set_key key (integer t g) r) apart_again
      ∙ value-set_key_self key (integer t g) r

  abbrev restored : HdpEvent → HdpEvent
  restored m = set_key Key.aux_flag nil (set_key key (integer t f) m)

  -- The second call, after which With gives m.
  second_call :
      (args : List Value) (before m : HdpEvent)
      → value key before ≡ integer t g
      → value key m ≡ integer t g
      → value Key.aux_flag m ≡ integer t f
      → with_args args (some before) ≡ m
      → with_flag same_error key args (some before) ≡ ret (some (restored m))
  unfolding with_flag swap_flag same_value is_nil
  second_call args before m e0 e a same =
      rw (same, e0, e, a, ==_refl (type_place t), ==_refl g) refl

  read-restored :
      (m : HdpEvent) (k : Text)
      → same_text key k ≡ false
      → same_text Key.aux_flag k ≡ false
      → get_key k (restored m) ≡ get_key k m
  read-restored m k h h2 = ground (
    arith,
    get_key-set_key Key.aux_flag k nil (set_key key (integer t f) m),
    get_key-set_key key k (integer t f) m,
  )

  both_calls :
      (args : List Value) (m : HdpEvent)
      → value key r ≡ integer t f
      → f ≢ g
      → with_args args (some after_set) ≡ m
      → value key m ≡ integer t g
      → value Key.aux_flag m ≡ integer t f
      → ((k : Text) → same_text key k ≡ false → get_key k m ≡ get_key k after_set)
      → IsRestored key
          (integer t f)
          r
          (with_flag same_error key (integer t g ∷ []) (some r) >>= with_flag same_error key args)
  both_calls args m e ne same eg ea rest = (
    restored m,
    ap (λ o. o >>= with_flag same_error key args) (set_state e ne)
        ∙ second_call args after_set m value-after_set eg ea same,
    value-set_key_ne Key.aux_flag key nil (set_key key (integer t f) m) apart_again
        ∙ value-set_key_self key (integer t f) m,
    value-set_key_self Key.aux_flag nil (set_key key (integer t f) m),
    λ k h h2. ground (
      arith,
      read-restored m k h h2,
      rest k h,
      get_key-set_key Key.aux_flag k (integer t f) (set_key key (integer t g) r),
      get_key-set_key key k (integer t g) r,
    ),
  )

  restores :
      (args : List Value)
      → value key r ≡ integer t f
      → f ≢ g
      → (args ≡ []) ⊎ (args ≡ integer t g ∷ [])
      → IsRestored key
          (integer t f)
          r
          (with_flag same_error key (integer t g ∷ []) (some r) >>= with_flag same_error key args)
  restores args e ne (inl q) =
      both_calls args after_set e ne
        (ap (λ xs. with_args xs (some after_set)) q ∙ with_none after_set) value-after_set
        (value-set_key_self Key.aux_flag (integer t f) (set_key key (integer t g) r)) (λ k h. refl)
  restores args e ne (inr q) =
      both_calls args (set_key key (integer t g) after_set) e ne
        (ap (λ xs. with_args xs (some after_set)) q ∙ stores g after_set)
        (value-set_key_self key (integer t g) after_set)
        (value-set_key_ne key Key.aux_flag (integer t g) after_set apart
          ∙ value-set_key_self Key.aux_flag (integer t f) (set_key key (integer t g) r))
        (λ k h. ground (arith, get_key-set_key key k (integer t g) after_set))

-- On an event r whose flag is f, a call of With1 with another flag g and then one with no argument,
-- or with g once more, give r again, with the flag f, no spare flag, and every other key as it was;
-- so do calls of With2 on an event q with its own flag. The second call restores f even where it
-- asks for g.
pub flags_swap_back :
    (same_error : Error → Error → Bool) (f g : ℕ) (r q : HdpEvent) (again : Bool)
    → f ≢ g
    → value Key.flag1 r ≡ integer state1 f
    → value Key.flag2 q ≡ integer state2 f
    → IsRestored Key.flag1 (integer state1 f) r (
        with1 same_error (integer state1 g ∷ []) (some r)
        >>= with1 same_error (if again then integer state1 g ∷ [] else []))
      × IsRestored Key.flag2 (integer state2 f) q (
          with2 same_error (integer state2 g ∷ []) (some q)
          >>= with2 same_error (if again then integer state2 g ∷ [] else []))
unfolding with1 with2
flags_swap_back same_error f g r q again ne e e2 = (
  restores same_error Key.flag1 state1 with_state1 flag1_is_not_aux aux_is_not_flag1 f g r
      (if again then integer state1 g ∷ [] else []) e ne (choice state1 g again),
  restores same_error Key.flag2 state2 with_state2 flag2_is_not_aux aux_is_not_flag2 f g q
      (if again then integer state2 g ∷ [] else []) e2 ne (choice state2 g again),
)
