-- ===== src/RingBuffer/Send.antt =====
-- ringbuffer.go: setNextItem, and the distance that windowFull measures.
use native.Mathlib.Decide.{dec_lt}
use native.Mathlib.Nat.{mod-eq_of_lt, mod-eq-sub-mod, mod-add-mod}
use aionet.Common.{
  ℕ, zero, suc, ◌+◌, ◌-◌, ◌%◌, ◌≤◌, ◌<◌, ◌≡◌, ◌≢◌, ◌⊎◌, inl, inr, false, Option, some, List, [],
  ◌∷◌, ◌++◌, arith, ◌==◌, length, get_elem?, set, ret, sub32, length-set, sym, ap, ◌∙◌,
  get_elem?-lt, get_elem?-append, get_elem?-append_end, length-append,
}
use aionet.RingBuffer.{
  RingItem, GyroNumber, RingBuffer, new_ring_item, window_full, adopt, set_next_item,
}
use aionet.RingBuffer.Valid.{IsValid, IsSeqNum, Fits, modulus_of_pos, window_full-some}

-- The buffer after setNextItem.
abbrev pub with_item : RingBuffer → ℕ → RingBuffer
with_item b n = record {
  gyro = adopt b.gyro (length b.heap);
  this = set b.this ((n - 1) % b.gyro.window) (some (length b.heap));
  heap = b.heap ++ (new_ring_item n ∷ []);
}

pub slot_in_range : {b : RingBuffer} (n : ℕ) → IsValid b → (n - 1) % b.gyro.window < length b.this
slot_in_range n v = omega (arith, v.slots, v.window_pos)

pub set_next_item_lem :
    {b : RingBuffer} (n : ℕ) → IsValid b → IsSeqNum n → set_next_item b n ≡ ret (with_item b n)
unfolding set_next_item
set_next_item_lem {b} n v r =
    let (old, e) = get_elem?-lt b.this ((n - 1) % b.gyro.window) (slot_in_range n v) in
    rw (modulus_of_pos b.gyro n v.window_pos r, e)

pub adopt_window : (g : GyroNumber) (p : ℕ) → (adopt g p).window ≡ g.window
unfolding adopt
adopt_window g p = ground arith

pub adopt_seq_num : (g : GyroNumber) (p : ℕ) → (adopt g p).seq_num ≡ g.seq_num
unfolding adopt
adopt_seq_num g p = ground arith

adopt_oldest :
    (g : GyroNumber) (p q : ℕ)
    → (adopt g p).oldest_unack ≡ some q
    → (q ≡ p) ⊎ (g.oldest_unack ≡ some q)
unfolding adopt
adopt_oldest g p q e = ground arith

-- A slot after `set`: the new pointer, or what was there.
set_cases :
    (xs : List (Option ℕ)) (j i p q : ℕ)
    → get_elem? (set xs j (some p)) i ≡ some (some q)
    → ((i ≡ j) × (q ≡ p)) ⊎ (get_elem? xs i ≡ some (some q))
set_cases [] j i p q e = inr e
set_cases (x ∷ xs) zero zero p q e = ground arith
set_cases (x ∷ xs) zero (suc i) p q e = inr e
set_cases (x ∷ xs) (suc j) zero p q e = inr e
set_cases (x ∷ xs) (suc j) (suc i) p q e = elim (set_cases xs j i p q e) [
  | inl (h, k) ↦ inl (ap suc h, k)
  | inr h ↦ inr h
]

fresh_item :
    (heap : List RingItem) (n p : ℕ) (item : RingItem)
    → p ≡ length heap
    → get_elem? (heap ++ (new_ring_item n ∷ [])) p ≡ some item
    → (item.seq_num ≡ n) × (item.acknowledged ≡ false)
unfolding new_ring_item
fresh_item heap n p item h f =
    let e : some (new_ring_item n) ≡ some item =
      sym (get_elem?-append_end heap (new_ring_item n)) ∙ rw h at f in
    ground arith

-- setNextItem never panics on a number that nextSeqNum handed out, and keeps the invariant.
pub set_next_item-IsValid :
    {b : RingBuffer} (n : ℕ)
    → IsValid b
    → IsSeqNum n
    → (b' : RingBuffer) × (set_next_item b n ≡ ret b') × IsValid b'
set_next_item-IsValid {b} n v r = (with_item b n, set_next_item_lem n v r, valid)
  where
    w : ℕ
    w = b.gyro.window

    grown : length (b.heap ++ (new_ring_item n ∷ [])) ≡ suc (length b.heap)
    grown = omega (arith, length-append b.heap (new_ring_item n ∷ []))

    alloc :
        (i p : ℕ)
        → get_elem? (with_item b n).this i ≡ some (some p)
        → p < length (with_item b n).heap
    alloc i p e = elim (set_cases b.this ((n - 1) % w) i (length b.heap) p e) [
      | inl (h, k) ↦ omega (arith, grown)
      | inr h ↦ omega (arith, grown, v.slot_alloc i p h)
    ]

    fits :
        (i p : ℕ) (item : RingItem)
        → get_elem? (with_item b n).this i ≡ some (some p)
        → get_elem? (with_item b n).heap p ≡ some item
        → Fits (adopt b.gyro (length b.heap)).window i item
    fits i p item e f =
        rw (adopt_window b.gyro (length b.heap))
          (elim (set_cases b.this ((n - 1) % w) i (length b.heap) p e) [
            | inl (h, k) ↦
                let (num, un) = fresh_item b.heap n p item k f in inr (un, rw num r, rw (num, h))
            | inr h ↦
                v.slot_fits i p item h
                  (sym (get_elem?-append b.heap (new_ring_item n ∷ []) p (v.slot_alloc i p h)) ∙ f)
          ])

    valid : IsValid (with_item b n)
    valid = record {
      window_pos = rw (adopt_window b.gyro (length b.heap)) v.window_pos;
      window_small = rw (adopt_window b.gyro (length b.heap)) v.window_small;
      slots = rw (adopt_window b.gyro (length b.heap)) (length-set b.this _ _ ∙ v.slots);
      seq_low = rw (adopt_seq_num b.gyro (length b.heap)) v.seq_low;
      seq_high = rw (adopt_seq_num b.gyro (length b.heap)) v.seq_high;
      oldest_alloc = λ p e. elim (adopt_oldest b.gyro (length b.heap) p e) [
        | inl h ↦ omega (arith, grown)
        | inr h ↦ omega (arith, grown, v.oldest_alloc p h)
      ];
      slot_alloc = alloc;
      slot_fits = fits;
    }

near_mod : (w h k : ℕ) → h < w → 0 < k → k < w → (h + k) % w ≢ h
near_mod w h k hh hk kw = elim (dec_lt (h + k) w) [
  | yes p ↦ omega (arith, mod-eq_of_lt p)
  | no p ↦ omega (
    arith,
    mod-eq-sub-mod {n = h + k} {m = w} (omega arith),
    mod-eq_of_lt {n = h + k - w} {m = w} (omega arith),
  )
]

-- Numbers less than a window apart have different slots.
pub slots_differ : (w m n : ℕ) → 1 ≤ m → m < n → n - m < w → (m - 1) % w ≢ (n - 1) % w
slots_differ w m n h k l e =
    let shift : (n - 1) % w ≡ ((m - 1) % w + (n - m)) % w =
      rw mod-add-mod (ap (λ t. t % w) (omega arith)) in
    near_mod w ((m - 1) % w) (n - m) (omega arith) (omega arith) l (sym shift ∙ sym e)

distance : (s o w : ℕ) → s ≤ 4294967294 → o < s → s ≤ o + w → (sub32 s o % w == 0) ≡ (s == o + w)
distance s o w hs lo hi =
    let e : sub32 s o ≡ s - o = omega arith in
    elim (dec_lt s (o + w)) [
      | yes p ↦ ground (arith, e, mod-eq_of_lt {n = s - o} {m = w} (omega arith))
      | no p ↦ ground (
        arith,
        e,
        mod-eq-sub-mod {n = s - o} {m = w} (omega arith),
        mod-eq_of_lt {n = s - o - w} {m = w} (omega arith),
      )
    ]

-- On a valid buffer whose oldest item has a number below the next one, by at most the window,
-- windowFull answers true exactly when the difference is the window.
pub window_full_iff :
    {b : RingBuffer} (p : ℕ) (item : RingItem)
    → IsValid b
    → b.gyro.oldest_unack ≡ some p
    → get_elem? b.heap p ≡ some item
    → item.seq_num < b.gyro.seq_num
    → b.gyro.seq_num ≤ item.seq_num + b.gyro.window
    → window_full b ≡ ret (b.gyro.seq_num == item.seq_num + b.gyro.window)
window_full_iff {b} p item v e f lo hi =
    window_full-some b p item v.window_pos e f
    ∙ ap ret (distance b.gyro.seq_num item.seq_num b.gyro.window v.seq_high lo hi)
