-- ===== src/Transport/Journey/Tests.antt =====
-- transport1.go: the frame 1 is delivered and its acknowledgement comes back. The checksum is the
-- sum of the bytes.
use aionet.Common.{
  get_elem?, ◌≤◌, ◌++◌, length, ℕ, ◌≡◌, refl, arith, ◌%◌, ◌+◌, ◌<◌, List, [], ◌∷◌, take, none, some,
  true, false, ret, inr, lookup,
}
use aionet.RingBuffer.{RingBuffer, new_ring_buffer, next_seq_num, set_next_item}
use aionet.RingBuffer.Valid.{IsValid}
use aionet.RingBuffer.Acknowledge.{Acknowledged}
use aionet.RingBuffer.Runs.{Step, numbered, stored, here, more, run-IsValid}
use aionet.Buffers.{is_empty}
use aionet.Wire.{hdp_datagram, hdp_data_ack}
use aionet.Wire.RoundTrip.{InWidth, written}
use aionet.Transport.{Kernel}
use aionet.Transport.Writer as Writer
use aionet.Transport.Writer.{Writer, Waiting, write1}
use aionet.Transport.Writer.Handlers.{handle, frame_acknowledged}
use aionet.Transport.Reader.{HdpRead2, read_header, read_frame, pass_on}
use aionet.Transport.Acknowledgement.{passed, acknowledging}
use aionet.Transport.Reader.Delivery.{fields, delivered}
use aionet.Transport.Journey.{frame_is_acknowledged}
use aionet.EventMap.{HdpEvent, bytes, value}
use aionet.EventMap.Key
use aionet.EventMap.Reads.{get_bytes, get_ch}
use aionet.EventMap.Channels.{event}
use aionet.Wire.{write_header}
use aionet.Buffers.Reader.{len}

abbrev front : List (List ℕ) → List ℕ
front [] = []
front (d ∷ ds) = d

abbrev behind : List (List ℕ) → List (List ℕ)
behind [] = []
behind (d ∷ ds) = ds

-- A socket that holds a queue of datagrams, and a poller that answers at once.
abbrev queue : Kernel (List (List ℕ))
queue = record {
  read = λ s n. (take n (front s), none, behind s);
  peek = λ s n. (take n (front s), none, s);
}

abbrev awake : Writer.Kernel (List (List ℕ))
awake = record {
  write = λ s p. (0, none, s);
  wait = λ s mode. (none, s);
  deadline = λ s mode v. (none, s);
}

abbrev plus : List ℕ → ℕ
plus [] = 0
plus (b ∷ bs) = b + plus bs

abbrev checksum : List ℕ → ℕ
checksum bs = plus bs % 65536

checksum_lt : (bs : List ℕ) → checksum bs < 65536
checksum_lt bs = omega arith

-- This side's writer, whose frame 1 waits on the channel 100.
abbrev one_sent : RingBuffer
one_sent = record {
  gyro = record { seq_num = 2; oldest_unack = some 0; window = 2 };
  this = some 0 ∷ none ∷ [];
  heap = record { seq_num = 1; acknowledged = false } ∷ [];
}

abbrev one_numbered : RingBuffer
one_numbered = record {
  gyro = record { seq_num = 2; oldest_unack = none; window = 2 };
  this = none ∷ none ∷ [];
  heap = [];
}

number_1 : Step (new_ring_buffer 2) one_numbered
unfolding next_seq_num new_ring_buffer
number_1 = numbered 1 none refl

store_1 : Step one_numbered one_sent
unfolding set_next_item
store_1 = stored 1 (omega arith, omega arith) refl

one_sent-IsValid : IsValid one_sent
one_sent-IsValid = run-IsValid 2 (omega arith) (omega arith) (more (more here number_1) store_1)

abbrev waiting : Writer
waiting = record {
  ring = one_sent;
  buffer = record { this = (1, []) ∷ []; maxsize = 16 };
  peer_seq_num = record { seq_num = [] };
  ack_done_ch = (1, 100) ∷ [];
  waiting = [];
  signals = [];
  tpt_r = 1;
  tpt_w = 2;
  ref_num = 700;
  next_ch = 101;
  frames = [];
  sent = [];
}

abbrev goroutine : Waiting
goroutine = record { seq_num = 1; ch = 100; req = [] }

-- The peer's writer.
abbrev idle : Writer
idle = record waiting { buffer = record { this = []; maxsize = 16 }; ref_num = 900 }

idle-is_empty : is_empty idle.buffer ≡ true
unfolding is_empty
idle-is_empty = refl

abbrev reader : HdpRead2
reader = record {
  buffer = record { this = []; size0 = 0; size1 = 16 };
  ref_num = 900;
  tpt_w = 2;
  frame = [];
  sent = [];
}

abbrev arriving : List (List ℕ)
arriving = written checksum (acknowledging 900 1) ∷ []

-- The frame, the user's request, and the peer's reader.
abbrev word : List ℕ
word = 104 ∷ 105 ∷ []

abbrev request : HdpEvent
request = (Key.bytes, bytes (0 ∷ 0 ∷ 0 ∷ [])) ∷ []

abbrev on_the_wire : List (List ℕ)
on_the_wire = write_header checksum 700 1 0 word ∷ word ∷ []

abbrev peer_reader : HdpRead2
peer_reader = record reader { ref_num = 700 }

fields-InWidth : InWidth (fields checksum 700 1 0 word)
fields-InWidth = record {
  ref_num_lt = omega arith;
  seq_num_lt = omega arith;
  ack_seq_num_lt = omega arith;
  flag_lt = omega arith;
  fsize_lt = omega arith;
  crc_lt = omega arith;
}

request_has_room : length word ≤ length (get_bytes none request)
unfolding get_bytes value Key.bytes
request_has_room = omega arith

frame_is_acknowledged_example :
    (d : List ℕ) × (reply : HdpEvent) × (let rp1 =
        delivered request
          (get_bytes none request)
          d
          word
          (record peer_reader { buffer = (len peer_reader.buffer).1 }) in
      (read_frame queue awake checksum 2 request peer_reader on_the_wire ≡ ret (rp1, []))
      × (rp1.sent
          ≡ ([] ++ (event 2 (passed hdp_datagram d) ∷ []))
            ++ (event (get_ch none request) reply ∷ [])))
    × (handle awake checksum 1 (passed hdp_datagram d) idle []
        ≡ ret (idle, (write1 awake 1 [] (written checksum (acknowledging 900 1))).after))
    × ((d0 d1 : List ℕ) × (read_header queue awake checksum 2 reader arriving ≡ (
      record { flag = hdp_data_ack; data_bytes = d0; err = none },
      pass_on (some (hdp_data_ack, d1)) reader,
      [],
    ))
        × (handle awake checksum 1 (passed hdp_data_ack d1) waiting []
            ≡ ret (record waiting { signals = 100 ∷ [] }, [])))
    × ((u : Writer) × (frame_acknowledged goroutine (record waiting { signals = 100 ∷ [] }) ≡ ret u)
        × Acknowledged one_sent 0 0 (record { seq_num = 1; acknowledged = false }) u.ring
        × (get_elem? u.ring.heap 0 ≡ some (record { seq_num = 0; acknowledged = true }))
        × (lookup 1 u.buffer.this ≡ none))
frame_is_acknowledged_example =
    frame_is_acknowledged queue awake queue awake checksum 1 waiting idle reader peer_reader
      goroutine (record { seq_num = 1; acknowledged = false }) request word 1 100 0 [] on_the_wire
      on_the_wire (word ∷ []) [] arriving arriving [] checksum_lt fields-InWidth (inr refl) refl
      (omega arith) request_has_room refl (record { reads = λ n. refl; peeks = λ n. refl })
      (record { reads = λ n. refl; peeks = λ n. refl }) (omega arith) (inr refl) idle-is_empty
      (omega arith, omega arith) refl (record { reads = λ n. refl; peeks = λ n. refl }) refl refl
      one_sent-IsValid refl refl refl
