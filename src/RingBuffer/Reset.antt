-- ===== src/RingBuffer/Reset.antt =====
-- ringbuffer.go: a buffer with one item reset, or its oldest pointer moved, is valid if it was
-- before.
use aionet.Common.{
  ℕ, zero, suc, ◌<◌, ◌≡◌, ◌⊎◌, inl, inr, some, List, [], ◌∷◌, arith, length, get_elem?, set,
  length-set, ap,
}
use aionet.RingBuffer.{RingItem, RingBuffer, reset, update_un_ack}
use aionet.RingBuffer.Valid.{IsValid, Fits}

-- The item at `p` is marked acknowledged; nothing else changes.
abbrev pub with_reset : RingBuffer → ℕ → RingItem → RingBuffer
with_reset b p item = record b { heap = set b.heap p (reset item) }

abbrev pub with_oldest : RingBuffer → ℕ → RingBuffer
with_oldest b p = record b { gyro = update_un_ack b.gyro (some p) }

pub heap_cases :
    (heap : List RingItem) (p q : ℕ) (old item : RingItem)
    → get_elem? (set heap p old) q ≡ some item
    → ((q ≡ p) × (item ≡ old)) ⊎ (get_elem? heap q ≡ some item)
heap_cases [] p q old item e = inr e
heap_cases (x ∷ xs) zero zero old item e = ground arith
heap_cases (x ∷ xs) zero (suc q) old item e = inr e
heap_cases (x ∷ xs) (suc p) zero old item e = inr e
heap_cases (x ∷ xs) (suc p) (suc q) old item e = elim (heap_cases xs p q old item e) [
  | inl (h, k) ↦ inl (ap suc h, k)
  | inr h ↦ inr h
]

pub reset-Fits : (w i : ℕ) (old item : RingItem) → item ≡ reset old → Fits w i item
unfolding reset
reset-Fits w i old item e = inl (ap (λ x. x.acknowledged) e, ap (λ x. x.seq_num) e)

pub with_reset-IsValid :
    {b : RingBuffer} (p : ℕ) (item : RingItem) → IsValid b → IsValid (with_reset b p item)
with_reset-IsValid {b} p item v = record {
  window_pos = v.window_pos;
  window_small = v.window_small;
  slots = v.slots;
  seq_low = v.seq_low;
  seq_high = v.seq_high;
  oldest_alloc = λ q e. omega (arith, length-set b.heap p (reset item), v.oldest_alloc q e);
  slot_alloc = λ i q e. omega (arith, length-set b.heap p (reset item), v.slot_alloc i q e);
  slot_fits = λ i q it e f. elim (heap_cases b.heap p q (reset item) it f) [
    | inl (h, k) ↦ reset-Fits b.gyro.window i item it k
    | inr h ↦ v.slot_fits i q it e h
  ];
}

pub with_oldest-IsValid :
    {b : RingBuffer} (p : ℕ) → IsValid b → p < length b.heap → IsValid (with_oldest b p)
unfolding update_un_ack
with_oldest-IsValid {b} p v h = record {
  window_pos = v.window_pos;
  window_small = v.window_small;
  slots = v.slots;
  seq_low = v.seq_low;
  seq_high = v.seq_high;
  oldest_alloc = λ q e. let same : p ≡ q = ground arith in omega arith;
  slot_alloc = v.slot_alloc;
  slot_fits = v.slot_fits;
}
