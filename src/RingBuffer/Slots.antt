-- ===== src/RingBuffer/Slots.antt =====
-- ringbuffer.go: which slot setNextItem fills, and the distance of windowFull over the wrap.
use mathlib.Core.Path.{subst}
use aionet.Common.{
  ℕ, ◌+◌, ◌-◌, ◌%◌, ◌≤◌, ◌<◌, ◌≡◌, refl, false, some, [], ◌∷◌, arith, ◌==◌, length, get_elem?, ret,
  ret-injective, sub32, get_elem?-set_self, sym, ◌∙◌, get_elem?-set_ne, get_elem?-append,
  get_elem?-append_end, lt_of_get_elem?,
}
use aionet.RingBuffer.{RingItem, RingBuffer, new_ring_item, window_full, set_next_item}
use aionet.RingBuffer.Valid.{IsValid, IsSeqNum, window_full-some}
use aionet.RingBuffer.Send.{
  with_item, set_next_item_lem, set_next_item-IsValid, slot_in_range, slots_differ,
}

new_item_un : (n : ℕ) → (new_ring_item n).acknowledged ≡ false
unfolding new_ring_item
new_item_un n = refl

new_item_num : (n : ℕ) → (new_ring_item n).seq_num ≡ n
unfolding new_ring_item
new_item_num n = refl

-- The slot `k` holds an outstanding item numbered `m`.
abbrev pub Sent : RingBuffer → ℕ → ℕ → Type 0
Sent b k m =
    (p : ℕ) × (item : RingItem) × (get_elem? b.this k ≡ some (some p))
    × (get_elem? b.heap p ≡ some item)
    × (item.acknowledged ≡ false)
    × (item.seq_num ≡ m)

-- On a valid buffer setNextItem with a sequence number `n` leaves an outstanding item of that
-- number in its slot, keeps the buffer valid, and keeps every outstanding item whose number is less
-- than a window below `n`.
pub set_next_item_stores :
    {b : RingBuffer} (n : ℕ)
    → IsValid b
    → IsSeqNum n
    → (b' : RingBuffer) × (set_next_item b n ≡ ret b')
      × IsValid b'
      × Sent b' ((n - 1) % b.gyro.window) n
      × ((m : ℕ)
          → 1 ≤ m
          → m < n
          → n - m < b.gyro.window
          → Sent b ((m - 1) % b.gyro.window) m
          → Sent b' ((m - 1) % b.gyro.window) m)
set_next_item_stores {b} n v r =
    let (c, run, v') = set_next_item-IsValid n v r in
    let e = ret-injective (sym run ∙ set_next_item_lem n v r) in
    (with_item b n, set_next_item_lem n v r, subst IsValid e v', fresh, keep)
  where
    fresh : Sent (with_item b n) ((n - 1) % b.gyro.window) n
    fresh = (
      length b.heap,
      new_ring_item n,
      get_elem?-set_self b.this ((n - 1) % b.gyro.window) (some (length b.heap))
          (slot_in_range n v),
      get_elem?-append_end b.heap (new_ring_item n),
      new_item_un n,
      new_item_num n,
    )

    keep :
        (m : ℕ)
        → 1 ≤ m
        → m < n
        → n - m < b.gyro.window
        → Sent b ((m - 1) % b.gyro.window) m
        → Sent (with_item b n) ((m - 1) % b.gyro.window) m
    keep m one lt near (p, item, l, f, a, e) = (
      p,
      item,
      get_elem?-set_ne b.this _ _ (some (length b.heap))
            (λ same. slots_differ b.gyro.window m n one lt near (sym same))
          ∙ l,
      get_elem?-append b.heap (new_ring_item n ∷ []) p (lt_of_get_elem? b.heap p item f) ∙ f,
      a,
      e,
    )

-- The numbers run from 1 to 4294967294 and start again, but windowFull subtracts modulo 4294967296:
-- on a valid buffer whose next number has started again when that of the oldest item has not, it
-- tests the number of outstanding frames plus 2.
pub window_full_wrapped :
    {b : RingBuffer} (p : ℕ) (item : RingItem)
    → IsValid b
    → b.gyro.oldest_unack ≡ some p
    → get_elem? b.heap p ≡ some item
    → b.gyro.seq_num < item.seq_num
    → item.seq_num ≤ 4294967294
    → window_full b ≡ ret ((b.gyro.seq_num + 4294967294 - item.seq_num + 2) % b.gyro.window == 0)
window_full_wrapped {b} p item v o f lt hi =
    let e : sub32 b.gyro.seq_num item.seq_num ≡ b.gyro.seq_num + 4294967294 - item.seq_num + 2 =
      omega arith in
    window_full-some b p item v.window_pos o f ∙ rw e
