-- ===== src/RingBuffer.antt =====
-- ringbuffer.go: the sequence numbers of the frames a connection has sent and their
-- acknowledgements. A `*ringItem` is an index into `heap`, so that the pointer `oldestUnack` and
-- the slots of `this` share their items as they do in the code; newRingItem allocates at the end.
pub mod Valid
pub mod Send
pub mod Ack
pub mod Reset
pub mod Acknowledge
pub mod Runs
pub mod Drained
pub mod Slots
mod Tests
use aionet.Common.{
  ℕ, zero, suc, Bool, true, false, Option, none, some, List, [], ◌∷◌, ◌++◌, ltb, leb, ◌==◌,
  if◌then◌else◌, length, get_elem?, set, replicate, Error, hdp, errorf, Go, ret, ◌>>=◌, ◌&&◌, deref,
  index, rem, add32, sub32, max_uint32,
}

pub record RingItem : Type 0 where
  pub seq_num : ℕ  -- uint32
  pub acknowledged : Bool

unfoldable pub new_ring_item : ℕ → RingItem
new_ring_item n = record { seq_num = n; acknowledged = false }

unfoldable pub reset : RingItem → RingItem
reset i = record { seq_num = 0; acknowledged = true }

pub record GyroNumber : Type 0 where
  pub seq_num : ℕ  -- uint32
  pub oldest_unack : Option ℕ
  pub window : ℕ  -- uint32

pub record RingBuffer : Type 0 where
  pub gyro : GyroNumber
  pub this : List (Option ℕ)
  pub heap : List RingItem

abbrev pub err_seq_num_overflow : Error
err_seq_num_overflow = hdp 10

abbrev pub err_ring_buffer_full : Error
err_ring_buffer_full = hdp 12

-- `p.seqNum` and the like: reading through a pointer.
abbrev pub load : List RingItem → Option ℕ → Go RingItem
load heap none = deref none
load heap (some p) = deref (get_elem? heap p)

-- gyroNumber.windowFull; `heap` holds the item that `oldestUnack` points to.
unfoldable pub gyro_window_full : List RingItem → GyroNumber → Go Bool
gyro_window_full heap g = elim g.oldest_unack [
  | none ↦ ret false
  | some p ↦ do
    item ← load heap (some p)
    m ← rem (sub32 g.seq_num item.seq_num) g.window
    ret (m == 0)
]

unfoldable pub gyro_init : GyroNumber → GyroNumber
gyro_init g = record g { oldest_unack = none; seq_num = 1 }

unfoldable pub modulus : GyroNumber → ℕ → Go ℕ
modulus g seq_num = rem (sub32 seq_num 1) g.window

-- The new state, the index, the sequence number and the error.
unfoldable pub next : GyroNumber → Go (GyroNumber × ℕ × ℕ × Option Error)
unfolding modulus
next g = if g.seq_num == max_uint32 then ret (g, 0, 0, some err_seq_num_overflow) else (do
  i ← modulus g g.seq_num
  ret (
      if add32 g.seq_num 1 == max_uint32
      then (record g { seq_num = 1 }, i, g.seq_num, none)
      else (record g { seq_num = add32 g.seq_num 1 }, i, g.seq_num, none)))

unfoldable pub update_un_ack : GyroNumber → Option ℕ → GyroNumber
update_un_ack g item = record g { oldest_unack = item }

-- Pointers are compared, not items.
unfoldable pub ack_num_is_oldest : GyroNumber → ℕ → Bool
ack_num_is_oldest g item = elim g.oldest_unack [ none ↦ true | some p ↦ p == item ]

unfoldable pub new_ring_buffer : ℕ → RingBuffer
unfolding gyro_init
new_ring_buffer window_size = record {
  gyro = gyro_init (record { seq_num = 0; oldest_unack = none; window = window_size });
  this = replicate window_size none;
  heap = [];
}

unfoldable pub window_full : RingBuffer → Go Bool
unfolding gyro_window_full
window_full b = gyro_window_full b.heap b.gyro

unfoldable pub next_seq_num : RingBuffer → Go (RingBuffer × ℕ × Option Error)
unfolding next window_full
next_seq_num b = do
  full ← window_full b
  if full
      then ret (b, 0, some err_ring_buffer_full)
      else (do (g, i, n, err) ← next b.gyro; ret (record b { gyro = g }, n, err))

-- `b.this[i] = p`.
abbrev pub store_slot : RingBuffer → ℕ → Option ℕ → Go RingBuffer
store_slot b i p = do old ← index b.this i; ret (record b { this = set b.this i p })

-- The new item becomes the oldest when there is none.
unfoldable pub adopt : GyroNumber → ℕ → GyroNumber
unfolding update_un_ack
adopt g item = elim g.oldest_unack [ none ↦ update_un_ack g (some item) | some p ↦ g ]

unfoldable pub set_next_item : RingBuffer → ℕ → Go RingBuffer
unfolding modulus new_ring_item adopt
set_next_item b seq_num = do
  i ← modulus b.gyro seq_num
  let item = length b.heap
  let heap' = b.heap ++ (new_ring_item seq_num ∷ [])
  store_slot (record b { gyro = adopt b.gyro item; heap = heap' }) i (some item)

-- The loop body of updateAckSeqNum at the index `k`: the slot's item if it is not acknowledged,
-- and otherwise the rest of the loop.
unfoldable pub look_at_slot : RingBuffer → ℕ → Go (Option ℕ) → Go (Option ℕ)
look_at_slot b k rest = do
  slot ← index b.this k
  elim slot [
    | none ↦ rest
    | some p ↦ do item ← load b.heap (some p); if item.acknowledged then rest else ret (some p)
  ]

-- The loop over the `n` indices from `(j + i) % window` on.
unfoldable pub find_unack : RingBuffer → ℕ → ℕ → ℕ → Go (Option ℕ)
unfolding look_at_slot
find_unack b j zero i = ret none
find_unack b j (suc n) i =
    let rest = find_unack b j n (add32 i 1) in
    (do k ← rem (add32 j i) b.gyro.window; look_at_slot b k rest)

-- The end of updateAckSeqNum, once the slot `j` holds `item` at `p` with the number acknowledged.
unfoldable pub acknowledge : RingBuffer → ℕ → ℕ → RingItem → Go RingBuffer
unfolding ack_num_is_oldest reset find_unack update_un_ack
acknowledge b j p item =
    let b' = record b { heap = set b.heap p (reset item) } in
    if ack_num_is_oldest b.gyro p
    then (do
      found ← find_unack b' j b.gyro.window 1
      elim found [
        | none ↦ ret b'
        | some q ↦ ret (record b' { gyro = update_un_ack b.gyro (some q) })
      ])
    else ret b'

unfoldable pub update_ack_seq_num : RingBuffer → ℕ → Go (RingBuffer × Option Error)
unfolding modulus acknowledge
update_ack_seq_num b seq_num = do
  j ← modulus b.gyro seq_num
  slot ← index b.this j
  elim slot [
    | none ↦ ret (b, some (errorf "%d seqNumAck is invalid" (seq_num ∷ [])))
    | some p ↦ do
      item ← load b.heap (some p)
      if item.seq_num == seq_num
          then (do b' ← acknowledge b j p item; ret (b', none))
          else if item.seq_num == 0 && item.acknowledged
          then ret (b, none)
          else ret (
            b,
            some (
                errorf "seqNumAck does not match the reference value : %d, %d"
                  (seq_num ∷ item.seq_num ∷ [])),
          )
  ]
