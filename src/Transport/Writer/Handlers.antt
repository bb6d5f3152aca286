-- ===== src/Transport/Writer/Handlers.antt =====
-- transport1.go, hdpWrite2: the handlers of its requests, and its goroutines that wait for
-- acknowledgements.
use aionet.Common.{
  ℕ, suc, ◌==◌, not, if◌then◌else◌, List, [], ◌∷◌, ◌++◌, length, take, drop, lookup, insert, Option,
  none, some, is_some, Error, Go, ret, panics, slice_out_of_range, nil_dereference, ◌>>=◌, leb,
}
use aionet.RingBuffer.{RingBuffer, RingBuffer, next_seq_num, set_next_item, update_ack_seq_num}
use aionet.Buffers.{
  BufferSn, BufferSn, is_empty, is_full, add_entry, pop, add, sn_is_empty, pop_left,
}
use aionet.Wire.{write_header, write_header1, uint32_at}
use aionet.EventMap.{Value, HdpEvent, nil, err, string, integer, uint32, int, state2, value}
use aionet.EventMap.Key
use aionet.EventMap.Build.{with_args, new_event}
use aionet.EventMap.Reads.{
  get_ch, get_flag2, get_bytes, get_uint32, get_err, get_frame, FramePointer, stored, copied,
}
use aionet.Transport.Writer.{
  hdp_closing, hdp_data_ack, hdp_datagram, hdp_repeat, hdp_rmt_closing, hdp_write1, hdp_write2,
  verr_eof, seq_num_key, peer_seq_num_key, deadline_key, Kernel, write1, Waiting, Writer, send,
  error_value, data_mark, reply_count,
}

-- `binary.LittleEndian.Uint32(b)` of a slice with its first bytes; the capacity of the sliced array
-- is taken to be its length.
unfoldable pub uint32_or_panic : List ℕ → Go ℕ
uint32_or_panic b = if leb 4 (length b) then ret (uint32_at b 0) else panics slice_out_of_range

module _ {S : Type 0} (k : Kernel S) (crc16 : List ℕ → ℕ) (fuel : ℕ) where
  -- acknowSeqnum once the number is read: it is acknowledged at once, or stored.
  unfoldable pub answer_peer : Writer → S → ℕ → Writer × S
  unfolding is_empty write1 add write_header1
  answer_peer w s seq_num =
      if is_empty w.buffer
      then (w, (write1 k fuel s (write_header1 crc16 w.ref_num 0 seq_num hdp_data_ack 0 0)).after)
      else (record w { peer_seq_num = add w.peer_seq_num seq_num }, s)

  -- `acknowSeqnum`.
  unfoldable pub acknow_seqnum : HdpEvent → Writer → S → Go (Writer × S)
  unfolding get_bytes uint32_or_panic answer_peer
  acknow_seqnum req w s =
      uint32_or_panic (take 4 (get_bytes none req)) >>= λ n. ret (answer_peer w s n)

-- The bytes `B` of a frame through its pointer.
abbrev pub bytes_or_panic : Option (List ℕ × ℕ) → Go (List ℕ)
bytes_or_panic none = panics nil_dereference
bytes_or_panic (some f) = ret f.0

unfoldable pub frame_bytes : Option FramePointer → Writer → Go (List ℕ)
frame_bytes none w = panics nil_dereference
frame_bytes (some (copied b n)) w = ret b
frame_bytes (some (stored p)) w = bytes_or_panic (lookup p w.frames)

-- `fr.N = n`.
unfoldable pub set_frame_count : Option FramePointer → List ℕ → ℕ → Writer → Writer
set_frame_count (some (stored p)) b n w = record w { frames = insert p (b, n) w.frames }
set_frame_count f b n w = w

-- The arguments that putFrame adds to its request, and the numbers of the peer's that it leaves.
unfoldable pub numbering : ℕ → BufferSn → List Value × BufferSn
unfolding sn_is_empty pop_left
numbering n b =
    let popped = pop_left b in
    let args = integer state2 hdp_write2 ∷ data_mark ∷ string seq_num_key ∷ integer uint32 n ∷ [] in
    if not (sn_is_empty b)
    then (args ++ (string peer_seq_num_key ∷ integer uint32 popped.0 ∷ []), popped.1)
    else (args, b)

-- putFrame once the ring answered.
unfoldable pub number_frame : HdpEvent → Writer → RingBuffer × ℕ × Option Error → Writer
unfolding numbering send with_args get_ch add_entry get_bytes
number_frame req w (ring, n, some e) =
    send (get_ch none req) (with_args (err e ∷ []) (some req)) (record w { ring = ring })
number_frame req w (ring, n, none) =
    let (args, peers) = numbering n w.peer_seq_num in
    let req1 = with_args args (some req) in
    send w.tpt_w req1 (record w {
      ring = ring;
      peer_seq_num = peers;
      buffer = (add_entry w.buffer (get_bytes none req1) n).1;
    })

-- `putFrame`.
unfoldable pub put_frame : HdpEvent → Writer → Go Writer
unfolding is_full next_seq_num send with_args get_ch number_frame
put_frame req w =
    if is_full w.buffer
    then ret (send (get_ch none req) (with_args (err verr_eof ∷ []) (some req)) w)
    else next_seq_num w.ring >>= λ x. ret (number_frame req w x)

-- `if doneCh != nil { doneCh <- true }`, when the channel, of capacity 1, has room: it is not modelled
-- that a number acknowledged again, whose true nobody receives, blocks the writer.
unfoldable pub signal : Option ℕ → Writer → Writer
signal none w = w
signal (some ch) w = record w { signals = w.signals ++ (ch ∷ []) }

-- `resetAckSeqnum`.
unfoldable pub reset_ack_seqnum : HdpEvent → Writer → Go Writer
unfolding get_bytes uint32_or_panic signal
reset_ack_seqnum req w =
    uint32_or_panic (drop 4 (get_bytes none req)) >>= λ n. ret (signal (lookup n w.ack_done_ch) w)

-- The goroutine of writeFrame once its channel has true: the error of updateAckSeqNum is dropped.
unfoldable pub frame_acknowledged : Waiting → Writer → Go Writer
unfolding update_ack_seq_num pop
frame_acknowledged x w = update_ack_seq_num w.ring x.seq_num >>= λ (ring, e).
    ret (record w { ring = ring; buffer = (pop w.buffer x.seq_num).1 })

-- The goroutine of writeFrame after ackTimeout, which adds to the map that it shares.
unfoldable pub frame_timed_out : Waiting → Writer → Writer
unfolding send with_args
frame_timed_out x w = send w.tpt_w (with_args (integer state2 hdp_repeat ∷ []) (some x.req)) w

module _ {S : Type 0} (k : Kernel S) (crc16 : List ℕ → ℕ) (fuel : ℕ) where
  -- The end of writeFrame, after the header and the frame are written. The goroutine that it starts
  -- shares the map req, to which the reply adds its error and its count: that map is kept for it.
  unfoldable pub frame_written : HdpEvent → ℕ → ℕ → Writer → Go Writer
  unfolding set_next_item send new_event reply_count with_args
  frame_written req seq_num n w = set_next_item w.ring seq_num >>= λ ring.
      let replied =
        with_args (error_value none ∷ data_mark ∷ string Key.byte_num ∷ integer int n ∷ [])
          (some req) in
      let w1 : Writer = record w {
        ring = ring;
        ack_done_ch = insert seq_num w.next_ch w.ack_done_ch;
        waiting = w.waiting ++ (record { seq_num = seq_num; ch = w.next_ch; req = replied } ∷ []);
        next_ch = suc w.next_ch;
      } in
      ret (reply_count none n req (send w.tpt_r (new_event (integer state2 hdp_data_ack ∷ [])) w1))

  -- `req.Ch() <- newHdpEvent(err)`.
  unfoldable pub reply_error : Error → HdpEvent → Writer → Writer
  unfolding send new_event get_ch
  reply_error e req w = send (get_ch none req) (new_event (err e ∷ [])) w

  -- writeFrame after its write of the frame, of which n bytes went.
  unfoldable pub body_written : HdpEvent → ℕ → ℕ → Writer → S → Option Error → Go (Writer × S)
  unfolding reply_error frame_written
  body_written req seq_num n w s (some e) = ret (reply_error e req w, s)
  body_written req seq_num n w s none = frame_written req seq_num n w >>= λ w1. ret (w1, s)

  -- writeFrame after its write of the header.
  unfoldable pub header_written :
      HdpEvent → ℕ → Option FramePointer → List ℕ → Writer → S → Option Error → Go (Writer × S)
  unfolding reply_error write1 set_frame_count body_written
  header_written req seq_num fr b w s (some e) = ret (reply_error e req w, s)
  header_written req seq_num fr b w s none =
      let c = write1 k fuel s b in
      body_written req seq_num c.count (set_frame_count fr b c.count w) c.after c.error

  -- writeFrame after it waited for the socket.
  unfoldable pub frame_ready :
      HdpEvent → Option FramePointer → List ℕ → Writer → Option Error × S → Go (Writer × S)
  unfolding reply_count get_uint32 write_header write1 header_written
  frame_ready req fr b w (some e, s) = ret (reply_count (some e) 0 req w, s)
  frame_ready req fr b w (none, s) =
      let seq_num = get_uint32 seq_num_key req in
      let header = write_header crc16 w.ref_num seq_num (get_uint32 peer_seq_num_key req) b in
      let h = write1 k fuel s header in header_written req seq_num fr b w h.after h.error

  -- `writeFrame`.
  unfoldable pub write_frame : HdpEvent → Writer → S → Go (Writer × S)
  unfolding get_frame frame_bytes frame_ready
  write_frame req w s =
      let fr = get_frame none req in frame_bytes fr w >>= λ b. frame_ready req fr b w (k.wait s 5)

  -- `setDeadline`, with the answer of the poller.
  unfoldable pub set_deadline : HdpEvent → Writer → S → Writer × S
  unfolding value send with_args get_ch
  set_deadline req w s =
      let (e, s1) = k.deadline s 5 (value deadline_key req) in
      (send (get_ch none req) (with_args (error_value e ∷ []) (some req)) w, s1)

  -- `sendClosing`.
  unfoldable pub send_closing : Writer → S → S
  unfolding write1 write_header1
  send_closing w s = (write1 k fuel s (write_header1 crc16 w.ref_num 0 0 hdp_rmt_closing 0 0)).after

  abbrev pub with_system : S → Go Writer → Go (Writer × S)
  with_system s m = m >>= λ w. ret (w, s)

  -- The case HDP_WRITE1 of `handle`, by the value under "deadline".
  unfoldable pub put_or_deadline : Value → HdpEvent → Writer → S → Go (Writer × S)
  unfolding put_frame set_deadline
  put_or_deadline nil req w s = with_system s (put_frame req w)
  put_or_deadline v req w s = ret (set_deadline req w s)

  -- `handle`, with its flag.
  unfoldable pub handle_flag : ℕ → HdpEvent → Writer → S → Go (Writer × S)
  unfolding send_closing reset_ack_seqnum acknow_seqnum put_or_deadline write_frame value
  handle_flag flag req w s =
      if flag == hdp_closing
      then ret (w, send_closing w s)
      else if flag == hdp_data_ack
      then with_system s (reset_ack_seqnum req w)
      else if flag == hdp_datagram
      then acknow_seqnum k crc16 fuel req w s
      else if flag == hdp_write1
      then put_or_deadline (value deadline_key req) req w s
      else if flag == hdp_write2
      then write_frame req w s
      else ret (w, s)

  unfoldable pub handle : HdpEvent → Writer → S → Go (Writer × S)
  unfolding handle_flag get_flag2
  handle req w s = handle_flag (get_flag2 none req) req w s

  -- The loop of `run` over the events received, up to one with an error.
  unfoldable pub run : List HdpEvent → Writer → S → Go (Writer × S)
  unfolding handle get_err
  run [] w s = ret (w, s)
  run (ev ∷ evs) w s =
      if is_some (get_err none ev) then ret (w, s) else handle ev w s >>= λ (w1, s1). run evs w1 s1
