-- ===== src/RingBuffer/Valid.antt =====
-- ringbuffer.go: what holds of a ring buffer between two calls, and that no method panics then.
use aionet.Common.{
  ℕ, ◌+◌, ◌-◌, ◌%◌, ◌≤◌, ◌<◌, ◌≡◌, ◌⊎◌, inl, inr, Bool, true, false, none, some, arith, ◌==◌,
  if◌then◌else◌, length, get_elem?, ret, rem, sub32, length-replicate, get_elem?-lt,
  get_elem?-replicate, Bool-cases, Option-cases, ==_ne, ap, ◌∙◌,
}
use aionet.RingBuffer.{
  RingItem, GyroNumber, RingBuffer, gyro_window_full, modulus, next, new_ring_buffer, window_full,
  next_seq_num, err_ring_buffer_full,
}

-- The range of the sequence numbers that `next` hands out.
abbrev pub IsSeqNum : ℕ → Type 0
IsSeqNum n = (1 ≤ n) × (n ≤ 4294967294)

-- What a slot's item may be: acknowledged and reset, or numbered for this slot.
abbrev pub Fits : ℕ → ℕ → RingItem → Type 0
Fits window i item =
    ((item.acknowledged ≡ true) × (item.seq_num ≡ 0))
    ⊎ ((item.acknowledged ≡ false) × IsSeqNum item.seq_num × ((item.seq_num - 1) % window ≡ i))

pub record IsValid (b : RingBuffer) : Type 0 where
  pub window_pos : 0 < b.gyro.window
  pub window_small : b.gyro.window ≤ 65535
  pub slots : length b.this ≡ b.gyro.window
  pub seq_low : 1 ≤ b.gyro.seq_num
  pub seq_high : b.gyro.seq_num ≤ 4294967294
  pub oldest_alloc : (p : ℕ) → b.gyro.oldest_unack ≡ some p → p < length b.heap
  pub slot_alloc : (i p : ℕ) → get_elem? b.this i ≡ some (some p) → p < length b.heap
  pub slot_fits :
      (i p : ℕ) (item : RingItem)
      → get_elem? b.this i ≡ some (some p)
      → get_elem? b.heap p ≡ some item
      → Fits b.gyro.window i item

pub rem_pos : (a w : ℕ) → 0 < w → rem a w ≡ ret (a % w)
rem_pos a w h = ground arith

pub modulus_of_pos :
    (g : GyroNumber) (n : ℕ) → 0 < g.window → IsSeqNum n → modulus g n ≡ ret ((n - 1) % g.window)
unfolding modulus
modulus_of_pos g n h r =
    let e : sub32 n 1 ≡ n - 1 = omega arith in rw (rem_pos (sub32 n 1) g.window h) (rw e)

pub new_ring_buffer-IsValid : (w : ℕ) → 0 < w → w ≤ 65535 → IsValid (new_ring_buffer w)
unfolding new_ring_buffer
new_ring_buffer-IsValid w h k = record {
  window_pos = h;
  window_small = k;
  slots = length-replicate w none;
  seq_low = omega arith;
  seq_high = omega arith;
  oldest_alloc = λ p e. cc;
  slot_alloc = λ i p e. cc (get_elem?-replicate w i none (some p) e);
  slot_fits = λ i p item e f. cc (get_elem?-replicate w i none (some p) e);
}

-- The answer of windowFull when the oldest item is numbered `o`.
pub window_full-some :
    (b : RingBuffer) (p : ℕ) (item : RingItem)
    → 0 < b.gyro.window
    → b.gyro.oldest_unack ≡ some p
    → get_elem? b.heap p ≡ some item
    → window_full b ≡ ret (sub32 b.gyro.seq_num item.seq_num % b.gyro.window == 0)
unfolding window_full
window_full-some b p item w e f =
    rw (e, gyro_window_full, f, rem_pos (sub32 b.gyro.seq_num item.seq_num) b.gyro.window w)

pub window_full-none : (b : RingBuffer) → b.gyro.oldest_unack ≡ none → window_full b ≡ ret false
unfolding window_full
window_full-none b e = rw (e, gyro_window_full)

pub window_full_total : {b : RingBuffer} → IsValid b → (r : Bool) × (window_full b ≡ ret r)
window_full_total {b} v = elim (Option-cases b.gyro.oldest_unack) [
  | inl e ↦ (false, window_full-none b e)
  | inr (p, e) ↦
      let (item, f) = get_elem?-lt b.heap p (v.oldest_alloc p e) in
      (_, window_full-some b p item v.window_pos e f)
]

pub window_full_cases :
    {b : RingBuffer} → IsValid b → (window_full b ≡ ret true) ⊎ (window_full b ≡ ret false)
window_full_cases v =
    let (r, e) = window_full_total v in
    elim (Bool-cases r) [ inl h ↦ inl (e ∙ ap ret h) | inr h ↦ inr (e ∙ ap ret h) ]

-- Moving the next sequence number keeps the rest of the invariant.
pub IsValid-seq_num :
    {b : RingBuffer} (n : ℕ)
    → IsValid b
    → IsSeqNum n
    → IsValid (record b { gyro = record b.gyro { seq_num = n } })
IsValid-seq_num n v r = record {
  window_pos = v.window_pos;
  window_small = v.window_small;
  slots = v.slots;
  seq_low = r.0;
  seq_high = r.1;
  oldest_alloc = v.oldest_alloc;
  slot_alloc = v.slot_alloc;
  slot_fits = v.slot_fits;
}

-- The number after `n`: numbers run from 1 to 4294967294 and start again.
abbrev pub succ_seq_num : ℕ → ℕ
succ_seq_num n = if n == 4294967294 then 1 else n + 1

next_lem :
    {b : RingBuffer}
    → IsValid b
    → next b.gyro
      ≡ ret (
        record b.gyro { seq_num = succ_seq_num b.gyro.seq_num },
        (b.gyro.seq_num - 1) % b.gyro.window,
        b.gyro.seq_num,
        none,
      )
unfolding next
next_lem {b} v =
    let low = v.seq_low in
    let high = v.seq_high in
    rw
      (
        ==_ne b.gyro.seq_num 4294967295 (omega arith),
        modulus_of_pos b.gyro b.gyro.seq_num v.window_pos (v.seq_low, v.seq_high),
      )
      (ground arith)

-- On a valid buffer nextSeqNum never panics. It refuses exactly when windowFull answers true, and
-- then changes nothing; otherwise it hands out the current number and moves on to the one after it.
pub next_seq_num_cases :
    {b : RingBuffer}
    → IsValid b
    → ((window_full b ≡ ret true) × (next_seq_num b ≡ ret (b, 0, some err_ring_buffer_full)))
      ⊎ ((window_full b ≡ ret false)
          × (next_seq_num b
              ≡ ret (
                record b { gyro = record b.gyro { seq_num = succ_seq_num b.gyro.seq_num } },
                b.gyro.seq_num,
                none,
              )))
unfolding next_seq_num
next_seq_num_cases {b} v = elim (window_full_cases v) [
  | inl e ↦ inl (e, rw e)
  | inr e ↦ inr (e, rw (e, next_lem v))
]
