-- ===== src/Transport/Writer/Requests.antt =====
-- transport1.go, putFrame and writeFrame on a request of HdpConn.Write.
use aionet.Common.{
  ◌>>=◌, if◌then◌else◌, ◌==◌, ◌≢◌, ==_ne, ℕ, suc, ◌≡◌, refl, ap, ◌∙◌, true, false, List, [], ◌∷◌,
  ◌++◌, none, some, ret, lookup, insert, lookup-insert_self,
}
use aionet.RingBuffer.{RingBuffer, next_seq_num, set_next_item}
use aionet.Buffers.{is_full, add_entry, sn_is_empty}
use aionet.Wire.{write_header}
use aionet.EventMap.{
  IntType, Float, HdpEvent, integer, int, uint32, state2, frame_pointer, chan, string, value, nil,
}
use aionet.EventMap.Key
use aionet.EventMap.Build
use aionet.EventMap.Channels
use aionet.EventMap.Reads
use aionet.EventMap.Channels.{Sent, event}
use aionet.Transport.Connection.{write_request, count_result}
use aionet.Transport.Writer.{
  Kernel, Writer, write1, seq_num_key, peer_seq_num_key, send, reply_count,
}
use aionet.Transport.Writer.Handlers.{
  put_frame, write_frame, frame_ready, header_written, body_written, frame_bytes, bytes_or_panic,
  frame_written, set_frame_count,
}

-- The request of Write, and what putFrame sends on of it.
abbrev pub fresh_request : ℕ → ℕ → HdpEvent
fresh_request p ch =
    (Key.flag2, integer state2 22) ∷ (Key.frame, frame_pointer p) ∷ (Key.result_ch, chan ch) ∷ []

abbrev pub numbered_request : ℕ → ℕ → ℕ → HdpEvent
numbered_request n p ch =
    (Key.flag2, integer state2 23)
    ∷ (Key.frame, frame_pointer p)
    ∷ (Key.result_ch, chan ch)
    ∷ (seq_num_key, integer uint32 n)
    ∷ []

nonzero_case {ℓ κ} :
    {A : Type ℓ} {B : Type κ} (c : ℕ) (a b : A × B) → c ≢ 0 → (if c == 0 then a else b).0 ≡ b.0
nonzero_case c a b ne = rw (==_ne c 0 ne) refl

pub write_request_lem :
    (tpt : List ℕ) (c p ch : ℕ) → c ≢ 0 → write_request tpt c p ch ≡ fresh_request p ch
unfolding write_request Channels.send_event Channels.sync Channels.send_event1 Build.new_event
    Build.with_args Build.add Build.add_pairs Build.add_from Build.as_string Build.note
    Build.is_data_mark Build.keep_error Channels.ready_channel value Key.data_mark Key.flag2
    Key.frame Key.result_ch Key.ready_ch
write_request_lem tpt c p ch ne = nonzero_case c _ _ ne

-- The writer after putFrame numbered a frame: nothing is put under its number.
abbrev pub queued : RingBuffer → ℕ → ℕ → ℕ → Writer → Writer
queued ring n p ch w = record w {
  ring = ring;
  buffer = (add_entry w.buffer [] n).1;
  sent = w.sent ++ (event w.tpt_w (numbered_request n p ch) ∷ []);
}

pub put_frame-numbers :
    (w : Writer) (ring : RingBuffer) (n p ch : ℕ)
    → is_full w.buffer ≡ false
    → sn_is_empty w.peer_seq_num ≡ true
    → next_seq_num w.ring ≡ ret (ring, n, none)
    → put_frame (fresh_request p ch) w ≡ ret (queued ring n p ch w)
unfolding put_frame send Key.data_mark Key.flag2 Key.frame Key.result_ch Key.bytes seq_num_key
    Build.as_string Reads.bytes_of value
put_frame-numbers w ring n p ch room no_peer next = rw (room, next, no_peer) refl

frame_bytes-stored :
    (w : Writer) (p m : ℕ) (b : List ℕ)
    → lookup p w.frames ≡ some (b, m)
    → frame_bytes (some (Reads.stored p)) w ≡ ret b
unfolding frame_bytes
frame_bytes-stored w p m b e = ap bytes_or_panic e

-- The writer after writeFrame wrote frame n, of which `count` bytes went.
abbrev pub written : RingBuffer → ℕ → ℕ → ℕ → List ℕ → ℕ → Writer → Writer
written ring n p ch b count w = reply_count none count (numbered_request n p ch) (
    send w.tpt_r (Build.new_event (integer state2 4 ∷ [])) (record w {
      ring = ring;
      ack_done_ch = insert n w.next_ch w.ack_done_ch;
      waiting =
          w.waiting
          ++ (record {
            seq_num = n;
            ch = w.next_ch;
            req =
                Build.with_args
                  (nil ∷ string Key.data_mark ∷ string Key.byte_num ∷ integer int count ∷ [])
                  (some (numbered_request n p ch));
          }
              ∷ []);
      next_ch = suc w.next_ch;
      frames = insert p (b, count) w.frames;
    }))

module _ {S : Type 0} (k : Kernel S) (crc16 : List ℕ → ℕ) (fuel : ℕ) where
  header_written-writes :
      (w : Writer) (s2 s3 : S) (ring : RingBuffer) (n p ch j : ℕ) (b : List ℕ)
      → write1 k fuel s2 b ≡ record { count = j; error = none; after = s3 }
      → set_next_item w.ring n ≡ ret ring
      → header_written k crc16 fuel (numbered_request n p ch) n (some (Reads.stored p)) b w s2 none
        ≡ ret (written ring n p ch b j w, s3)
  unfolding header_written body_written frame_written set_frame_count
  header_written-writes w s2 s3 ring n p ch j b c slot =
      ap
        (λ t.
          body_written k crc16 fuel (numbered_request n p ch) n t.count
            (set_frame_count (some (Reads.stored p)) b t.count w) t.after t.error)
        c
      ∙ rw slot refl

  frame_ready-writes :
      (w : Writer) (s1 s2 s3 : S) (ring : RingBuffer) (n p ch i j : ℕ) (b : List ℕ)
      → write1 k fuel s1 (write_header crc16 w.ref_num n 0 b)
        ≡ record { count = i; error = none; after = s2 }
      → write1 k fuel s2 b ≡ record { count = j; error = none; after = s3 }
      → set_next_item w.ring n ≡ ret ring
      → frame_ready k crc16 fuel (numbered_request n p ch) (some (Reads.stored p)) b w (none, s1)
        ≡ ret (written ring n p ch b j w, s3)
  unfolding frame_ready Reads.get_uint32 Reads.uint32_of value Key.frame Key.flag2 Key.result_ch
      seq_num_key peer_seq_num_key
  frame_ready-writes w s1 s2 s3 ring n p ch i j b h c slot =
      ap
        (λ t.
          header_written k crc16 fuel (numbered_request n p ch) n (some (Reads.stored p)) b w
            t.after t.error)
        h
      ∙ header_written-writes w s2 s3 ring n p ch j b c slot

  write_frame-writes :
      (w : Writer) (s s1 s2 s3 : S) (ring : RingBuffer) (n p ch m i j : ℕ) (b : List ℕ)
      → lookup p w.frames ≡ some (b, m)
      → k.wait s 5 ≡ (none, s1)
      → write1 k fuel s1 (write_header crc16 w.ref_num n 0 b)
        ≡ record { count = i; error = none; after = s2 }
      → write1 k fuel s2 b ≡ record { count = j; error = none; after = s3 }
      → set_next_item w.ring n ≡ ret ring
      → write_frame k crc16 fuel (numbered_request n p ch) w s ≡ ret (written ring n p ch b j w, s3)
  unfolding write_frame Reads.get_frame Reads.frame_of value Key.frame Key.flag2
  write_frame-writes w s s1 s2 s3 ring n p ch m i j b found ready h c slot =
      ap
        (λ o. o >>= λ b1.
          frame_ready k crc16 fuel (numbered_request n p ch) (some (Reads.stored p)) b1 w
            (k.wait s 5))
        (frame_bytes-stored w p m b found)
      ∙ ap (frame_ready k crc16 fuel (numbered_request n p ch) (some (Reads.stored p)) b w) ready
      ∙ frame_ready-writes w s1 s2 s3 ring n p ch i j b h c slot

  reply-written :
      (out_of_range : IntType → Float → ℕ) (w : Writer) (ring : RingBuffer) (n p ch j : ℕ)
      (b : List ℕ)
      → (r : HdpEvent) × ((written ring n p ch b j w).sent
          ≡ (w.sent ++ (event w.tpt_r (Build.new_event (integer state2 4 ∷ [])) ∷ []))
            ++ (event ch r ∷ []))
        × (count_result out_of_range r ≡ (j, none))
  unfolding reply_count send value count_result Reads.retval Reads.get_int Reads.int_of
      Reads.get_err Reads.error_of Build.with_args Build.add Build.as_string Build.note
      Build.is_data_mark Build.keep_error Reads.channel_of Key.data_mark Key.byte_num Key.error
      Key.frame Key.flag2 Key.result_ch seq_num_key
  reply-written out_of_range w ring n p ch j b = (
    (Key.flag2, integer state2 23)
        ∷ (Key.frame, frame_pointer p)
        ∷ (Key.result_ch, chan ch)
        ∷ (seq_num_key, integer uint32 n)
        ∷ (Key.error, nil)
        ∷ (Key.byte_num, integer int j)
        ∷ [],
    refl,
    refl,
  )

  -- A Write on a connection takes the writer two steps. On its request, when the buffer has room,
  -- the ring gives the number n, and no number of the peer's is stored, putFrame stores an empty
  -- frame under n, not the user's, and sends itself the request with n. On that request, when the
  -- socket becomes ready, the header for n, with the peer's number 0, and then the frame are
  -- written without an error, and the ring takes n, writeFrame tells the reader to expect an
  -- acknowledgement and replies, on the channel that Write waits on, with the number of the frame's
  -- bytes that were written and no error.
  pub write_in_two_steps :
      (out_of_range : IntType → Float → ℕ) (tpt : List ℕ) (ready p ch n : ℕ) (w v : Writer)
      (ring ring1 : RingBuffer) (s s1 s2 s3 : S) (m i j : ℕ) (b : List ℕ)
      → ready ≢ 0
      → is_full w.buffer ≡ false
      → sn_is_empty w.peer_seq_num ≡ true
      → next_seq_num w.ring ≡ ret (ring, n, none)
      → lookup p v.frames ≡ some (b, m)
      → k.wait s 5 ≡ (none, s1)
      → write1 k fuel s1 (write_header crc16 v.ref_num n 0 b)
        ≡ record { count = i; error = none; after = s2 }
      → write1 k fuel s2 b ≡ record { count = j; error = none; after = s3 }
      → set_next_item v.ring n ≡ ret ring1
      → (put_frame (write_request tpt ready p ch) w ≡ ret (queued ring n p ch w))
        × (lookup n (queued ring n p ch w).buffer.this ≡ some [])
        × (write_frame k crc16 fuel (numbered_request n p ch) v s
            ≡ ret (written ring1 n p ch b j v, s3))
        × ((r : HdpEvent) × ((written ring1 n p ch b j v).sent
              ≡ (v.sent ++ (event v.tpt_r (Build.new_event (integer state2 4 ∷ [])) ∷ []))
                ++ (event ch r ∷ []))
            × (count_result out_of_range r ≡ (j, none)))
  unfolding add_entry
  write_in_two_steps oor tpt c p ch n w v ring ring1 s s1 s2 s3 m i j b ne room peer next found ok h
        body slot =
      (
        ap (λ r. put_frame r w) (write_request_lem tpt c p ch ne)
            ∙ put_frame-numbers w ring n p ch room peer next,
        lookup-insert_self n [] w.buffer.this,
        write_frame-writes v s s1 s2 s3 ring1 n p ch m i j b found ok h body slot,
        reply-written oor v ring1 n p ch j b,
      )
