-- ===== src/RingBuffer/Tests.antt =====
-- ringbuffer.go: the theorems at small concrete buffers.
use aionet.Common.{
  ℕ, zero, suc, ◌+◌, ◌-◌, ◌%◌, ◌≤◌, ◌<◌, ◌≡◌, refl, ◌⊎◌, inl, true, false, Option, none, some, [],
  ◌∷◌, arith, ◌==◌, get_elem?, Error, ret,
}
use aionet.RingBuffer.{
  RingItem, RingBuffer, new_ring_buffer, window_full, next_seq_num, set_next_item, find_unack,
  update_ack_seq_num, err_ring_buffer_full,
}
use aionet.RingBuffer.Valid.{IsValid, succ_seq_num, next_seq_num_cases}
use aionet.RingBuffer.Send.{window_full_iff}
use aionet.RingBuffer.Ack.{SettledFrom, FirstOutstanding, find_unack_cases}
use aionet.RingBuffer.Acknowledge.{AckOutcome, update_ack_seq_num_cases}
use aionet.RingBuffer.Runs.{Step, numbered, stored, acked, here, more, Stale, run-IsValid}
use aionet.RingBuffer.Drained.{refuses_for_good}
use aionet.RingBuffer.Slots.{Sent, set_next_item_stores, window_full_wrapped}

-- Two slots, of which the frame 1 takes the first.
abbrev one_sent : RingBuffer
one_sent = record {
  gyro = record { seq_num = 2; oldest_unack = some 0; window = 2 };
  this = some 0 ∷ none ∷ [];
  heap = record { seq_num = 1; acknowledged = false } ∷ [];
}

numbered_1 :
    Step (new_ring_buffer 2) (record (new_ring_buffer 2) {
      gyro = record { seq_num = 2; oldest_unack = none; window = 2 };
    })
unfolding next_seq_num new_ring_buffer
numbered_1 = numbered 1 none refl

stored_1 :
    Step
      (record (new_ring_buffer 2) {
        gyro = record { seq_num = 2; oldest_unack = none; window = 2 };
      })
      one_sent
unfolding set_next_item new_ring_buffer
stored_1 = stored 1 (omega arith, omega arith) refl

run-IsValid_example : IsValid one_sent
run-IsValid_example =
    run-IsValid 2 (omega arith) (omega arith) (more (more here numbered_1) stored_1)

one_sent-IsValid : IsValid one_sent
one_sent-IsValid = run-IsValid 2 (omega arith) (omega arith) (more (more here numbered_1) stored_1)

update_ack_seq_num_cases_example :
    (b' : RingBuffer) × (err : Option Error) × (update_ack_seq_num one_sent 1 ≡ ret (b', err))
    × AckOutcome one_sent 1 b' err
update_ack_seq_num_cases_example =
    update_ack_seq_num_cases 1 one_sent-IsValid (omega arith, omega arith)

next_seq_num_cases_example :
    ((window_full one_sent ≡ ret true)
      × (next_seq_num one_sent ≡ ret (one_sent, 0, some err_ring_buffer_full)))
    ⊎ ((window_full one_sent ≡ ret false)
        × (next_seq_num one_sent
            ≡ ret (
              record one_sent {
                gyro = record one_sent.gyro { seq_num = succ_seq_num one_sent.gyro.seq_num };
              },
              one_sent.gyro.seq_num,
              none,
            )))
next_seq_num_cases_example = next_seq_num_cases one_sent-IsValid

find_unack_cases_example :
    ((find_unack one_sent 0 2 1 ≡ ret none) × SettledFrom one_sent 0 1 3)
    ⊎ ((p : ℕ) × (find_unack one_sent 0 2 1 ≡ ret (some p)) × FirstOutstanding one_sent 0 1 3 p)
find_unack_cases_example = find_unack_cases 0 2 1 one_sent-IsValid (omega arith) (omega arith)

window_full_iff_example : window_full one_sent ≡ ret (2 == 3)
window_full_iff_example =
    window_full_iff 0 (record { seq_num = 1; acknowledged = false }) one_sent-IsValid refl refl
      (omega arith) (omega arith)

set_next_item_stores_example :
    (b' : RingBuffer) × (set_next_item one_sent 2 ≡ ret b')
    × IsValid b'
    × Sent b' 1 2
    × ((m : ℕ)
        → 1 ≤ m
        → m < 2
        → 2 - m < 2
        → Sent one_sent ((m - 1) % 2) m
        → Sent b' ((m - 1) % 2) m)
set_next_item_stores_example = set_next_item_stores 2 one_sent-IsValid (omega arith, omega arith)

others_settled : SettledFrom one_sent 0 1 2
others_settled zero h k = elim h [ ]
others_settled (suc zero) h k = inl refl
others_settled (suc (suc t)) h k = absurd (omega arith)

-- The same buffer once the frame 1 is acknowledged.
abbrev all_acked : RingBuffer
all_acked = record one_sent { heap = record { seq_num = 0; acknowledged = true } ∷ [] }

acked_1 : Step one_sent all_acked
unfolding update_ack_seq_num
acked_1 = acked 1 none (omega arith, omega arith) refl

all_acked-IsValid : IsValid all_acked
all_acked-IsValid =
    run-IsValid 2 (omega arith) (omega arith) (more (more (more here numbered_1) stored_1) acked_1)

all_acked-Stale : Stale all_acked 0
all_acked-Stale = record {
  oldest = refl;
  was_reset = (record { seq_num = 0; acknowledged = true }, refl, refl, refl);
}

acked_again : Step all_acked all_acked
unfolding update_ack_seq_num
acked_again = acked 1 none (omega arith, omega arith) refl

refuses_for_good_example : next_seq_num all_acked ≡ ret (all_acked, 0, some err_ring_buffer_full)
refuses_for_good_example =
    refuses_for_good 0 all_acked-IsValid all_acked-Stale refl (more here acked_again)

-- Three slots; the last number before the wrap waits for its acknowledgement, and 1 is next.
abbrev last_item : RingItem
last_item = record { seq_num = 4294967294; acknowledged = false }

abbrev wrapped : RingBuffer
wrapped = record {
  gyro = record { seq_num = 1; oldest_unack = some 0; window = 3 };
  this = none ∷ some 0 ∷ none ∷ [];
  heap = last_item ∷ [];
}

only_slot : (i p : ℕ) → get_elem? wrapped.this i ≡ some (some p) → (i ≡ 1) × (p ≡ 0)
only_slot zero p e = cc
only_slot (suc zero) p e = (refl, ground (arith, e))
only_slot (suc (suc zero)) p e = cc
only_slot (suc (suc (suc i))) p e = cc

wrapped-IsValid : IsValid wrapped
wrapped-IsValid = record {
  window_pos = omega arith;
  window_small = omega arith;
  slots = refl;
  seq_low = omega arith;
  seq_high = omega arith;
  oldest_alloc = λ p e. ground (arith, e);
  slot_alloc = λ i p e. omega (arith, only_slot i p e);
  slot_fits = λ i p item e f. ground (arith, only_slot i p e, f);
}

window_full_wrapped_example : window_full wrapped ≡ ret ((1 + 4294967294 - 4294967294 + 2) % 3 == 0)
window_full_wrapped_example =
    window_full_wrapped 0 last_item wrapped-IsValid refl refl (omega arith) (omega arith)
