-- ===== src/Transport/Reader/Tests.antt =====
-- Concrete runs of the reader of transport1.go.
use aionet.Common.{
  ℕ, ◌≡◌, ◌≤◌, refl, length, arith, ◌%◌, ◌+◌, ◌<◌, List, [], ◌∷◌, take, none, ret, inr,
}
use aionet.Buffers.Reader.{len}
use aionet.Wire.{write_header, uint32_at}
use aionet.Wire.RoundTrip.{InWidth}
use aionet.EventMap.{HdpEvent, bytes, value}
use aionet.EventMap.Key
use aionet.EventMap.Reads.{get_bytes}
use aionet.Transport.{Kernel}
use aionet.Transport.Writer as Writer
use aionet.Transport.Reader.{HdpRead2, read_frame}
use aionet.Transport.Reader.Delivery.{fields, delivered, frame_delivered}

abbrev front : List (List ℕ) → List ℕ
front [] = []
front (d ∷ ds) = d

abbrev behind : List (List ℕ) → List (List ℕ)
behind [] = []
behind (d ∷ ds) = ds

-- A socket that holds a queue of datagrams, and a poller that answers at once.
abbrev queue : Kernel (List (List ℕ))
queue = record {
  read = λ s n. (take n (front s), none, behind s);
  peek = λ s n. (take n (front s), none, s);
}

abbrev awake : Writer.Kernel (List (List ℕ))
awake = record {
  write = λ s p. (0, none, s);
  wait = λ s mode. (none, s);
  deadline = λ s mode v. (none, s);
}

abbrev plus : List ℕ → ℕ
plus [] = 0
plus (b ∷ bs) = b + plus bs

abbrev checksum : List ℕ → ℕ
checksum bs = plus bs % 65536

checksum_lt : (bs : List ℕ) → checksum bs < 65536
checksum_lt bs = omega arith

abbrev word : List ℕ
word = 104 ∷ 105 ∷ []

abbrev room : List ℕ
room = 0 ∷ 0 ∷ 0 ∷ []

abbrev request : HdpEvent
request = (Key.bytes, bytes room) ∷ []

abbrev sent : List (List ℕ)
sent = write_header checksum 700 6 4 word ∷ word ∷ []

abbrev reader : HdpRead2
reader = record {
  buffer = record { this = []; size0 = 0; size1 = 16 };
  ref_num = 700;
  tpt_w = 1;
  frame = [];
  sent = [];
}

fields-InWidth : InWidth (fields checksum 700 6 4 word)
fields-InWidth = record {
  ref_num_lt = omega arith;
  seq_num_lt = omega arith;
  ack_seq_num_lt = omega arith;
  flag_lt = omega arith;
  fsize_lt = omega arith;
  crc_lt = omega arith;
}

request_has_room : length word ≤ length (get_bytes none request)
unfolding get_bytes value Key.bytes
request_has_room = omega arith

frame_delivered_example :
    (d : List ℕ) × (uint32_at d 0 ≡ 6)
    × (uint32_at d 4 ≡ 4)
    × (read_frame queue awake checksum 1 request reader sent
        ≡ ret (
          delivered request
              (get_bytes none request)
              d
              word
              (record reader { buffer = (len reader.buffer).1 }),
          [],
        ))
frame_delivered_example =
    frame_delivered queue awake checksum 0 request reader 700 6 4 word sent sent (word ∷ []) []
      checksum_lt fields-InWidth (inr refl) refl (omega arith) request_has_room refl
      (record { reads = λ n. refl; peeks = λ n. refl })
      (record { reads = λ n. refl; peeks = λ n. refl })
