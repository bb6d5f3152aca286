-- ===== src/Transport/Writer/Tests.antt =====
-- transport1.go, hdpWrite2: the theorems at single requests.
use aionet.Common.{
  ℕ, ◌≡◌, refl, false, List, [], ◌∷◌, ◌++◌, length, Option, none, some, Error, zero, suc, ◌+◌,
  errno, ret, lookup, arith, ascii,
}
use aionet.RingBuffer.{RingBuffer, next_seq_num, set_next_item}
use aionet.Buffers
use aionet.Buffers.{new_buffer_sn, is_full}
use aionet.Wire.{write_header}
use aionet.EventMap.{HdpEvent, integer, state2, bytes, IntType, Float, value}
use aionet.EventMap.Key
use aionet.EventMap.Build
use aionet.EventMap.Reads
use aionet.EventMap.Channels.{event}
use aionet.Transport.Connection.{write_request, count_result}
use aionet.Transport.Writer.{Kernel, Writer, write, write1, tries, settled}
use aionet.Transport.Writer.Handlers.{put_frame, write_frame, run, acknow_seqnum, uint32_or_panic}
use aionet.Transport.Writer.Requests.{queued, written, numbered_request, write_in_two_steps}
use aionet.Transport.Writer.Forgets.{ForgetsWith}
use aionet.Transport.Writer.Peer.{peer_numbers_lost}
use aionet.Transport.Writer.Queue.{Line, Reach, Step, running, put_deadlocks}

-- A system that interrupts as many calls as its state says, and then takes all bytes.
abbrev answer : ℕ → List ℕ → ℕ × Option Error × ℕ
answer zero p = (length p, none, 0)
answer (suc n) p = (0, some (errno 4), n)

abbrev busy : Kernel ℕ
busy = record { write = answer; wait = λ s mode. (none, s); deadline = λ s mode v. (none, s) }

abbrev word : List ℕ
word = 104 ∷ 105 ∷ []

abbrev sum : List ℕ → ℕ
sum [] = 0
sum (b ∷ bs) = b + sum bs

-- A writer with a window of 4, whose frame 9 is a word; and one with that frame buffered.
abbrev idle : Writer
idle = record {
  ring = record {
    gyro = record { seq_num = 1; oldest_unack = none; window = 4 };
    this = none ∷ none ∷ none ∷ none ∷ [];
    heap = [];
  };
  buffer = record { this = []; maxsize = 16 };
  peer_seq_num = record { seq_num = [] };
  ack_done_ch = [];
  waiting = [];
  signals = [];
  tpt_r = 1;
  tpt_w = 2;
  ref_num = 1234;
  next_ch = 100;
  frames = (9, (word, 0)) ∷ [];
  sent = [];
}

abbrev holding : Writer
holding = record idle { buffer = record { this = (1, []) ∷ []; maxsize = 16 } }

abbrev numbered_ring : RingBuffer
numbered_ring = record idle.ring { gyro = record { seq_num = 2; oldest_unack = none; window = 4 } }

abbrev filled_ring : RingBuffer
filled_ring = record {
  gyro = record { seq_num = 1; oldest_unack = some 0; window = 4 };
  this = some 0 ∷ none ∷ none ∷ none ∷ [];
  heap = record { seq_num = 1; acknowledged = false } ∷ [];
}

abbrev no_range : IntType → Float → ℕ
no_range t x = 0

write_in_two_steps_example :
    (put_frame (write_request (1 ∷ 2 ∷ []) 7 9 8) idle ≡ ret (queued numbered_ring 1 9 8 idle))
    × (lookup 1 (queued numbered_ring 1 9 8 idle).buffer.this ≡ some [])
    × (write_frame busy sum 2 (numbered_request 1 9 8) idle 0
        ≡ ret (written filled_ring 1 9 8 word 2 idle, 0))
    × ((r : HdpEvent) × ((written filled_ring 1 9 8 word 2 idle).sent
          ≡ ([] ++ (event 1 (Build.new_event (integer state2 4 ∷ [])) ∷ [])) ++ (event 8 r ∷ []))
        × (count_result no_range r ≡ (2, none)))
unfolding is_full Buffers.sn_is_empty next_seq_num set_next_item write1 tries write settled
    write_header
write_in_two_steps_example =
    write_in_two_steps busy sum 2 no_range (1 ∷ 2 ∷ []) 7 9 8 1 idle idle numbered_ring filled_ring
      0 0 0 0 0 18 2 word (omega arith) refl refl refl refl refl refl refl refl

abbrev from_peer : HdpEvent
from_peer = (ascii "bytes", bytes (5 ∷ 0 ∷ 0 ∷ 0 ∷ 0 ∷ 0 ∷ 0 ∷ 0 ∷ [])) ∷ []

peer_numbers_lost_example :
    ForgetsWith (run busy sum 2 (from_peer ∷ []) holding 0)
    × (acknow_seqnum busy sum 2 from_peer holding 0 ≡ ret (holding, 0))
unfolding new_buffer_sn Buffers.is_empty uint32_or_panic Reads.get_bytes Reads.bytes_of value
    Key.bytes
peer_numbers_lost_example =
    peer_numbers_lost busy sum 2 (from_peer ∷ []) from_peer holding 0 5 refl refl refl

-- The peer's number arrives while the frame 1 of a Write is numbered.
put_deadlocks_example :
    Reach busy sum 2
      (running (write_request (1 ∷ 2 ∷ []) 7 9 8 ∷ []) [] idle 0)
      (running (from_peer ∷ []) (numbered_request 1 9 8 ∷ []) (queued numbered_ring 1 9 8 idle) 0)
    × ((b : Line ℕ)
        → ¬ (
            Step busy sum 2
              (running
                (from_peer ∷ [])
                (numbered_request 1 9 8 ∷ [])
                (queued numbered_ring 1 9 8 idle)
                0)
              b))
unfolding is_full Buffers.sn_is_empty next_seq_num
put_deadlocks_example =
    put_deadlocks busy sum 2 idle numbered_ring (1 ∷ 2 ∷ []) 7 9 8 1 0 from_peer (omega arith) refl
      refl refl
