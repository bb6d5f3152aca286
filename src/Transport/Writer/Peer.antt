-- ===== src/Transport/Writer/Peer.antt =====
-- transport1.go, hdpWrite2: what becomes of the numbers of the peer's frames, and of frames whose
-- acknowledgement does not come.
use aionet.Wire.{write_header}
use aionet.Common.{
  lookup, ℕ, ◌≡◌, refl, ap, ◌∙◌, false, inl, inr, Bool-cases, List, [], ◌∷◌, Option, none, some,
  Error, ret, ◌>>=◌, drop, take, is_some, ◌==◌,
}
use aionet.Buffers.{new_buffer_sn, add, is_empty}
use aionet.RingBuffer.{set_next_item}
use aionet.EventMap.{HdpEvent, Value, nil, value}
use aionet.EventMap.Reads
use aionet.EventMap.Reads.{FramePointer, stored, copied}
use aionet.Transport.Writer.{
  write1, seq_num_key, peer_seq_num_key, hdp_closing, hdp_data_ack, hdp_datagram, hdp_write1,
  hdp_write2, deadline_key, Kernel, Writer, send, reply_count,
}
use aionet.Transport.Writer.Forgets.{
  Forgets, ForgetsWith, Forgets-bind, put_frame-Forgets, ForgetsWith-if, ForgetsWith-bind,
  ForgetsWith-then, ForgetsWith-paired, ForgetsWith-next,
}
use aionet.Transport.Writer.Handlers.{
  acknow_seqnum, put_frame, reset_ack_seqnum, write_frame, frame_ready, header_written,
  body_written, frame_written, set_frame_count, reply_error, set_deadline, handle, handle_flag, run,
  uint32_or_panic, frame_bytes, signal, answer_peer, put_or_deadline,
}

signal-forgets : (o : Option ℕ) (w : Writer) → (signal o w).peer_seq_num ≡ w.peer_seq_num
unfolding signal
signal-forgets none w = refl
signal-forgets (some ch) w = refl

set_frame_count-forgets :
    (f : Option FramePointer) (b : List ℕ) (n : ℕ) (w : Writer)
    → (set_frame_count f b n w).peer_seq_num ≡ w.peer_seq_num
unfolding set_frame_count
set_frame_count-forgets none b n w = refl
set_frame_count-forgets (some (stored p)) b n w = refl
set_frame_count-forgets (some (copied c m)) b n w = refl

module _ {S : Type 0} (k : Kernel S) (crc16 : List ℕ → ℕ) (fuel : ℕ) where
  answer_peer-forgets :
      (w : Writer) (s : S) (n : ℕ)
      → (answer_peer k crc16 fuel w s n).0.peer_seq_num ≡ w.peer_seq_num
  unfolding answer_peer add
  answer_peer-forgets w s n = elim (Bool-cases (is_empty w.buffer)) [
    | inl e ↦ rw e refl
    | inr e ↦ rw e refl
  ]

  body_written-Forgets :
      (req : HdpEvent) (seq_num n : ℕ) (w : Writer) (s : S) (e : Option Error)
      → w.peer_seq_num ≡ new_buffer_sn
      → ForgetsWith (body_written k crc16 fuel req seq_num n w s e)
  unfolding body_written reply_error frame_written send reply_count
  body_written-Forgets req seq_num n w s (some e) h = h
  body_written-Forgets req seq_num n w s none h =
      ForgetsWith-paired _ s (Forgets-bind (set_next_item w.ring seq_num) _ (λ r. h))

  header_written-Forgets :
      (req : HdpEvent) (n : ℕ) (f : Option FramePointer) (b : List ℕ) (w : Writer) (s : S)
      (e : Option Error)
      → w.peer_seq_num ≡ new_buffer_sn
      → ForgetsWith (header_written k crc16 fuel req n f b w s e)
  unfolding header_written reply_error send
  header_written-Forgets req n f b w s (some e) h = h
  header_written-Forgets req n f b w s none h =
      let c = write1 k fuel s b in
      body_written-Forgets req n c.count (set_frame_count f b c.count w) c.after c.error
        (set_frame_count-forgets f b c.count w ∙ h)

  frame_ready-Forgets :
      (req : HdpEvent) (f : Option FramePointer) (b : List ℕ) (w : Writer) (x : Option Error × S)
      → w.peer_seq_num ≡ new_buffer_sn
      → ForgetsWith (frame_ready k crc16 fuel req f b w x)
  unfolding frame_ready reply_count send
  frame_ready-Forgets req f b w (some e, s) h = h
  frame_ready-Forgets req f b w (none, s) h =
      let n = Reads.get_uint32 seq_num_key req in
      let c =
        write1 k fuel s
          (write_header crc16 w.ref_num n (Reads.get_uint32 peer_seq_num_key req) b) in
      header_written-Forgets req n f b w c.after c.error h

  write_frame-Forgets :
      (req : HdpEvent) (w : Writer) (s : S)
      → w.peer_seq_num ≡ new_buffer_sn
      → ForgetsWith (write_frame k crc16 fuel req w s)
  unfolding write_frame
  write_frame-Forgets req w s h =
      ForgetsWith-then (frame_bytes (Reads.get_frame none req) w) _
        (λ b. frame_ready-Forgets req (Reads.get_frame none req) b w (k.wait s 5) h)

  put_or_deadline-Forgets :
      (v : Value) (req : HdpEvent) (w : Writer) (s : S)
      → w.peer_seq_num ≡ new_buffer_sn
      → ForgetsWith (put_or_deadline k crc16 fuel v req w s)
  unfolding put_or_deadline set_deadline send
  put_or_deadline-Forgets nil req w s h =
      ForgetsWith-paired (put_frame req w) s (put_frame-Forgets req w h)
  put_or_deadline-Forgets v req w s h = h

  reset_ack_seqnum-Forgets :
      (req : HdpEvent) (w : Writer)
      → w.peer_seq_num ≡ new_buffer_sn
      → Forgets (reset_ack_seqnum req w)
  unfolding reset_ack_seqnum
  reset_ack_seqnum-Forgets req w h =
      Forgets-bind (uint32_or_panic (drop 4 (Reads.get_bytes none req))) _
        (λ n. signal-forgets (lookup n w.ack_done_ch) w ∙ h)

  handle_flag-Forgets :
      (flag : ℕ) (req : HdpEvent) (w : Writer) (s : S)
      → w.peer_seq_num ≡ new_buffer_sn
      → ForgetsWith (handle_flag k crc16 fuel flag req w s)
  unfolding handle_flag acknow_seqnum
  handle_flag-Forgets flag req w s h = ForgetsWith-if (flag == hdp_closing) _ _ h (
      ForgetsWith-if (flag == hdp_data_ack) _ _
        (ForgetsWith-paired (reset_ack_seqnum req w) s (reset_ack_seqnum-Forgets req w h))
        (ForgetsWith-if (flag == hdp_datagram) _ _
          (ForgetsWith-bind (uint32_or_panic (take 4 (Reads.get_bytes none req))) _
            (λ n. answer_peer-forgets w s n ∙ h))
          (ForgetsWith-if (flag == hdp_write1) _ _
            (put_or_deadline-Forgets (value deadline_key req) req w s h)
            (ForgetsWith-if (flag == hdp_write2) _ _ (write_frame-Forgets req w s h) h))))

  run-Forgets :
      (reqs : List HdpEvent) (w : Writer) (s : S)
      → w.peer_seq_num ≡ new_buffer_sn
      → ForgetsWith (run k crc16 fuel reqs w s)
  unfolding run handle
  run-Forgets [] w s h = h
  run-Forgets (req ∷ reqs) w s h = ForgetsWith-if (is_some (Reads.get_err none req)) _ _ h (
      ForgetsWith-next (handle k crc16 fuel req w s) _
        (handle_flag-Forgets (Reads.get_flag2 none req) req w s h)
        (λ w1 s1 h1. run-Forgets reqs w1 s1 h1))

  -- Through any requests that the writer handles, from one with no number of the peer's stored, as
  -- a new writer is, no number is ever stored, unless a handler panics. So a number that the peer's
  -- frame brings while the writer's buffer is not empty is never acknowledged: acknowSeqnum leaves
  -- the writer and the system as they are.
  pub peer_numbers_lost :
      (reqs : List HdpEvent) (req : HdpEvent) (w : Writer) (s : S) (n : ℕ)
      → w.peer_seq_num ≡ new_buffer_sn
      → is_empty w.buffer ≡ false
      → uint32_or_panic (take 4 (Reads.get_bytes none req)) ≡ ret n
      → ForgetsWith (run k crc16 fuel reqs w s) × (acknow_seqnum k crc16 fuel req w s ≡ ret (w, s))
  unfolding acknow_seqnum answer_peer add
  peer_numbers_lost reqs req w s n h full number = (
    run-Forgets reqs w s h,
    ap (λ m. m >>= λ i. ret (answer_peer k crc16 fuel w s i)) number ∙ rw full refl,
  )
