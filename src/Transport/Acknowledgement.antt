-- ===== src/Transport/Acknowledgement.antt =====
-- transport1.go: the way of an acknowledgement, from the peer's writer, which learns the number of
-- a frame from its reader, over the wire to this side's reader, its writer, and the goroutine that
-- waits for it.
use mathlib.Core.Path.{subst}
use aionet.Common.{
  get_elem?, get_elem?-set_self, lt_of_get_elem?, set, ◌-◌, ◌%◌, ℕ, suc, ◌≡◌, ◌<◌, refl, ap, ◌∙◌,
  ◌⊎◌, inl, arith, List, [], ◌∷◌, ◌++◌, length, take, drop, none, some, true, ret, ◌>>=◌, lookup,
  lookup-remove_self, remove,
}
use aionet.RingBuffer.Valid.{IsValid, IsSeqNum}
use aionet.RingBuffer.{RingItem, RingBuffer, reset, update_un_ack}
use aionet.RingBuffer.Acknowledge.{Acknowledged, kept, drained, moved, on_match}
use aionet.Buffers.{BuffrW, is_empty, pop}
use aionet.Wire.{uint32_at, hdp_data_ack, hdp_datagram}
use aionet.Wire.RoundTrip.{Fields, written}
use aionet.EventMap.{HdpEvent, integer, state2, string, bytes, value}
use aionet.EventMap.Key
use aionet.EventMap.Build
use aionet.EventMap.Build.{new_event}
use aionet.EventMap.Reads.{get_flag2, get_bytes}
use aionet.Transport.{Kernel}
use aionet.Transport.Datagram.{NextIs}
use aionet.Transport.Writer as Writer
use aionet.Transport.Writer.{Writer, Waiting, write1, data_mark}
use aionet.Transport.Writer.Handlers.{
  handle, handle_flag, acknow_seqnum, answer_peer, reset_ack_seqnum, signal, frame_acknowledged,
  uint32_or_panic,
}
use aionet.Transport.Reader.{HdpRead2, read_header, pass_on}
use aionet.Transport.Reader.Headers.{read_header-passes}

-- The event that parseHeader sends to the writer.
abbrev pub passed : ℕ → List ℕ → HdpEvent
passed flag d = new_event (integer state2 flag ∷ data_mark ∷ string Key.bytes ∷ bytes d ∷ [])

get_flag2-passed : (flag : ℕ) (d : List ℕ) → get_flag2 none (passed flag d) ≡ flag
unfolding get_flag2 new_event value Key.flag2 Key.bytes Key.data_mark Build.as_string
get_flag2-passed flag d = refl

get_bytes-passed : (flag : ℕ) (d : List ℕ) → get_bytes none (passed flag d) ≡ d
unfolding get_bytes new_event value Key.flag2 Key.bytes Key.data_mark Build.as_string
get_bytes-passed flag d = refl

first_number : (d : List ℕ) → length d ≡ 8 → uint32_or_panic (take 4 d) ≡ ret (uint32_at d 0)
unfolding uint32_or_panic
first_number (a ∷ b ∷ c ∷ e ∷ d) l = ground arith
first_number [] l = cc
first_number (a ∷ []) l = ground (arith, l)
first_number (a ∷ b ∷ []) l = ground (arith, l)
first_number (a ∷ b ∷ c ∷ []) l = ground (arith, l)

second_number : (d : List ℕ) → length d ≡ 8 → uint32_or_panic (drop 4 d) ≡ ret (uint32_at d 4)
unfolding uint32_or_panic
second_number (a ∷ b ∷ c ∷ e ∷ d) l = ground (arith, l)
second_number [] l = cc
second_number (a ∷ []) l = ground (arith, l)
second_number (a ∷ b ∷ []) l = ground (arith, l)
second_number (a ∷ b ∷ c ∷ []) l = ground (arith, l)

-- The header of an acknowledgement of n.
abbrev pub acknowledging : ℕ → ℕ → Fields
acknowledging ref n = record {
  ref_num = ref;
  seq_num = 0;
  ack_seq_num = n;
  flag = hdp_data_ack;
  fsize = 0;
  crc = 0;
}

module _ {S : Type 0} (k : Writer.Kernel S) (crc16 : List ℕ → ℕ) (fuel : ℕ) where
  -- A writer with no frame in its buffer answers a datagram's numbers with the header of an
  -- acknowledgement.
  handle-datagram :
      (w : Writer) (s : S) (d : List ℕ)
      → is_empty w.buffer ≡ true
      → length d ≡ 8
      → handle k crc16 fuel (passed hdp_datagram d) w s
        ≡ ret (w, (write1 k fuel s (written crc16 (acknowledging w.ref_num (uint32_at d 0)))).after)
  unfolding handle handle_flag acknow_seqnum answer_peer
  handle-datagram w s d idle l =
      ap (λ f. handle_flag k crc16 fuel f (passed hdp_datagram d) w s)
        (get_flag2-passed hdp_datagram d)
      ∙ ap (λ b. uint32_or_panic (take 4 b) >>= λ n. ret (answer_peer k crc16 fuel w s n))
          (get_bytes-passed hdp_datagram d)
      ∙ ap (λ o. o >>= λ n. ret (answer_peer k crc16 fuel w s n)) (first_number d l)
      ∙ rw idle refl

  -- A writer that waits for the acknowledged number signals the channel of its frame.
  handle-acknowledged :
      (w : Writer) (s : S) (d : List ℕ) (ch : ℕ)
      → length d ≡ 8
      → lookup (uint32_at d 4) w.ack_done_ch ≡ some ch
      → handle k crc16 fuel (passed hdp_data_ack d) w s
        ≡ ret (record w { signals = w.signals ++ (ch ∷ []) }, s)
  unfolding handle handle_flag reset_ack_seqnum signal
  handle-acknowledged w s d ch l found =
      ap (λ f. handle_flag k crc16 fuel f (passed hdp_data_ack d) w s)
        (get_flag2-passed hdp_data_ack d)
      ∙ ap
          (λ b.
            (uint32_or_panic (drop 4 b) >>= λ n. ret (signal (lookup n w.ack_done_ch) w)) >>= λ v.
            ret (v, s))
          (get_bytes-passed hdp_data_ack d)
      ∙ ap (λ o. (o >>= λ n. ret (signal (lookup n w.ack_done_ch) w)) >>= λ v. ret (v, s))
          (second_number d l)
      ∙ ap (λ o. ret (signal o w, s)) found

pop-removes : (b : BuffrW) (n : ℕ) → (pop b n).1.this ≡ remove n b.this
unfolding pop
pop-removes b n = ground arith

reset_stays :
    (heap : List RingItem) (p : ℕ) (item : RingItem)
    → get_elem? heap p ≡ some item
    → get_elem? (set heap p (reset item)) p ≡ some (record { seq_num = 0; acknowledged = true })
unfolding reset
reset_stays heap p item f = get_elem?-set_self heap p (reset item) (lt_of_get_elem? heap p item f)

Acknowledged-resets :
    {b b' : RingBuffer} (j p : ℕ) (item : RingItem)
    → get_elem? b.heap p ≡ some item
    → Acknowledged b j p item b'
    → get_elem? b'.heap p ≡ some (record { seq_num = 0; acknowledged = true })
unfolding update_un_ack
Acknowledged-resets {b} j p item f (kept _ _ _ e) = rw e (reset_stays b.heap p item f)
Acknowledged-resets {b} j p item f (drained _ _ e) = rw e (reset_stays b.heap p item f)
Acknowledged-resets {b} j p item f (moved _ _ _ e) = rw e (reset_stays b.heap p item f)

-- The frame's goroutine, once it is signalled, settles the item of its number in the ring and drops
-- the frame.
frame_acknowledged-settles :
    (x : Waiting) (w : Writer) (p : ℕ) (item : RingItem)
    → IsValid w.ring
    → IsSeqNum x.seq_num
    → get_elem? w.ring.this ((x.seq_num - 1) % w.ring.gyro.window) ≡ some (some p)
    → get_elem? w.ring.heap p ≡ some item
    → item.seq_num ≡ x.seq_num
    → (v : Writer) × (frame_acknowledged x w ≡ ret v)
      × Acknowledged w.ring ((x.seq_num - 1) % w.ring.gyro.window) p item v.ring
      × (get_elem? v.ring.heap p ≡ some (record { seq_num = 0; acknowledged = true }))
      × (lookup x.seq_num v.buffer.this ≡ none)
unfolding frame_acknowledged
frame_acknowledged-settles x w p item valid r slot found same =
    let (ring, run, out) = on_match x.seq_num p item valid r slot found same in
    (
      record w { ring = ring; buffer = (pop w.buffer x.seq_num).1 },
      ap (λ o. o >>= λ (q, err). ret (record w { ring = q; buffer = (pop w.buffer x.seq_num).1 }))
          run,
      out,
      Acknowledged-resets _ p item found out,
      ap (lookup x.seq_num) (pop-removes w.buffer x.seq_num)
          ∙ lookup-remove_self x.seq_num w.buffer.this,
    )

module _ {S P : Type 0} (k : Kernel S) (waits : Writer.Kernel S) (peer : Writer.Kernel P)
    (crc16 : List ℕ → ℕ) (fuel : ℕ) where
  -- A frame's number n comes back. The peer's writer v, which has no frame of its own in its
  -- buffer, gets the numbers of a datagram, the first of them n, from its reader, and writes a
  -- header that acknowledges n. When that header is the next datagram of this side's reader r,
  -- which knows the peer's number or none, and is woken without an error, parseHeader passes its
  -- numbers d1 on; on d1 this side's writer w signals the channel that it keeps for n; and when the
  -- ring holds an item with the number n at its slot, the goroutine of that frame, with the signalled
  -- writer, then acknowledges that item in the ring and takes the frame out of the buffer.
  pub acknowledgement_returns :
      (v w : Writer) (r : HdpRead2) (x : Waiting) (item : RingItem) (d : List ℕ) (n ch q : ℕ)
      (t : P) (s s1 s2 : S)
      → ((y : List ℕ) → crc16 y < 65536)
      → v.ref_num < 65536
      → (r.ref_num ≡ 0) ⊎ (r.ref_num ≡ v.ref_num)
      → is_empty v.buffer ≡ true
      → length d ≡ 8
      → uint32_at d 0 ≡ n
      → IsSeqNum n
      → waits.wait s 2 ≡ (none, s1)
      → NextIs k s1 (written crc16 (acknowledging v.ref_num n)) s2
      → lookup n w.ack_done_ch ≡ some ch
      → x.seq_num ≡ n
      → IsValid w.ring
      → get_elem? w.ring.this ((n - 1) % w.ring.gyro.window) ≡ some (some q)
      → get_elem? w.ring.heap q ≡ some item
      → item.seq_num ≡ n
      → (handle peer crc16 fuel (passed hdp_datagram d) v t
          ≡ ret (v, (write1 peer fuel t (written crc16 (acknowledging v.ref_num n))).after))
        × ((d0 d1 : List ℕ) × (read_header k waits crc16 (suc fuel) r s ≡ (
          record { flag = hdp_data_ack; data_bytes = d0; err = none },
          pass_on (some (hdp_data_ack, d1)) r,
          s2,
        ))
            × (handle waits crc16 fuel (passed hdp_data_ack d1) w s2
                ≡ ret (record w { signals = w.signals ++ (ch ∷ []) }, s2)))
        × ((u : Writer) × (frame_acknowledged x (record w { signals = w.signals ++ (ch ∷ []) })
              ≡ ret u)
            × Acknowledged w.ring ((n - 1) % w.ring.gyro.window) q item u.ring
            × (get_elem? u.ring.heap q ≡ some (record { seq_num = 0; acknowledged = true }))
            × (lookup n u.buffer.this ≡ none))
  acknowledgement_returns v w r x item d n ch q t s s1 s2 c small known idle l first seq ready next
        found is_x valid slot heap same =
      let (d0, d1, _, _, l1, _, is_n, reads) =
        read_header-passes k waits crc16 fuel r (acknowledging v.ref_num n) s s1 s2 c
          (record {
            ref_num_lt = small;
            seq_num_lt = omega arith;
            ack_seq_num_lt = omega (arith, seq.1);
            flag_lt = omega arith;
            fsize_lt = omega arith;
            crc_lt = omega arith;
          })
          known (inl refl) (λ e. omega (arith, e)) ready next in
      (
        handle-datagram peer crc16 fuel v t d idle l
            ∙ ap
                (λ m.
                  ret (v, (write1 peer fuel t (written crc16 (acknowledging v.ref_num m))).after))
                first,
        (
          d0,
          d1,
          reads,
          handle-acknowledged waits crc16 fuel w s2 d1 ch l1
              (ap (λ m. lookup m w.ack_done_ch) is_n ∙ found),
        ),
        subst
            (λ m.
              (u : Writer) × (frame_acknowledged x (record w { signals = w.signals ++ (ch ∷ []) })
                ≡ ret u)
              × Acknowledged w.ring ((m - 1) % w.ring.gyro.window) q item u.ring
              × (get_elem? u.ring.heap q ≡ some (record { seq_num = 0; acknowledged = true }))
              × (lookup m u.buffer.this ≡ none))
            is_x
            (frame_acknowledged-settles x (record w { signals = w.signals ++ (ch ∷ []) }) q item
              valid (rw is_x seq) (rw is_x slot) heap (rw is_x same)),
      )
