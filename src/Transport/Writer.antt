-- ===== src/Transport/Writer.antt =====
-- transport1.go, hdpWrite2, with socket.write of sock1.go: the goroutine that numbers, writes and
-- keeps frames. Requests are events; a channel is its address, and what is sent on one is recorded
-- in order. The system is a parameter. The pause after EAGAIN and the log lines are left out.
pub mod Handlers
pub mod Retries
pub mod Requests
pub mod Forgets
pub mod Peer
pub mod Timeouts
pub mod Queue
mod Tests
use aionet.Common.{
  ℕ, zero, suc, ◌+◌, ltb, ◌==◌, ◌&&◌, not, Bool, if◌then◌else◌, List, [], ◌∷◌, ◌++◌, length, take,
  drop, lookup, insert, Option, none, some, is_some, Error, hdp, errno, eof, unexpected_eof, Go,
  ret, panics, slice_out_of_range, nil_dereference, ◌>>=◌, Text, ascii, leb,
}
use aionet.RingBuffer.{RingBuffer, next_seq_num, set_next_item, update_ack_seq_num, new_ring_buffer}
use aionet.Buffers.{
  BuffrW, BufferSn, is_empty, is_full, add_entry, pop, add, sn_is_empty, pop_left, new_buffr_w,
  new_buffer_sn,
}
use aionet.Wire.{write_header, write_header1, uint32_at}
use aionet.EventMap.{HdpEvent, Value, nil, err, string, integer, int, uint32, state2, value}
use aionet.EventMap.Key
use aionet.EventMap.Build.{with_args, new_event}
use aionet.EventMap.Reads.{
  get_ch, get_flag2, get_bytes, get_uint32, get_err, get_frame, FramePointer, stored, copied,
}
use aionet.EventMap.Channels.{Sent, event}
use aionet.Transport.{is_errno, eintr, eagain}

-- The flags that the transport handles.
abbrev pub hdp_closing : ℕ
hdp_closing = 3

abbrev pub hdp_data_ack : ℕ
hdp_data_ack = 4

abbrev pub hdp_datagram : ℕ
hdp_datagram = 5

abbrev pub hdp_read1 : ℕ
hdp_read1 = 12

abbrev pub hdp_repeat : ℕ
hdp_repeat = 15

abbrev pub hdp_rmt_closing : ℕ
hdp_rmt_closing = 17

abbrev pub hdp_write1 : ℕ
hdp_write1 = 22

abbrev pub hdp_write2 : ℕ
hdp_write2 = 23

-- `VErrEOF`.
abbrev pub verr_eof : Error
verr_eof = hdp 26

unfoldable pub seq_num_key : Text
seq_num_key = ascii "seqNum"

unfoldable pub peer_seq_num_key : Text
peer_seq_num_key = ascii "peerSeqNum"

unfoldable pub deadline_key : Text
deadline_key = ascii "deadline"

-- unix.Write into the socket, what waitIoReady answers for a mode, and the answer to a deadline.
pub record Kernel (S : Type 0) : Type 0 where
  pub write : S → List ℕ → ℕ × Option Error × S
  pub wait : S → ℕ → Option Error × S
  pub deadline : S → ℕ → Value → Option Error × S

-- The bytes written, the error, and the system after a call.
pub record Count (S : Type 0) : Type 0 where
  pub count : ℕ
  pub error : Option Error
  pub after : S

-- A call that wrote nothing because a signal came.
abbrev pub is_interrupted : ℕ → Option Error → Bool
is_interrupted n e = not (ltb 0 n) && is_errno eintr e

-- What `socket.write` returns of a call that was not interrupted.
unfoldable pub settled : {S : Type 0} → List ℕ → ℕ × Option Error × S → ℕ × Option Error × S
settled p (n, e, s) =
    if n == length p
    then (n, e, s)
    else if is_some e
    then (n, e, s)
    else if n == 0
    then (n, some unexpected_eof, s)
    else (n, none, s)

abbrev pub counted : {S : Type 0} → ℕ × Option Error × S → Count S
counted (n, e, s) = record { count = n; error = e; after = s }

module _ {S : Type 0} (k : Kernel S) where
  -- `socket.write`; `fuel` bounds the calls that end with EINTR.
  unfoldable pub write : ℕ → S → List ℕ → Count S
  unfolding settled
  write zero s p = record { count = 0; error = some (errno eintr); after = s }
  write (suc fuel) s p =
      let (n, e, s1) = k.write s p in
      let again = write fuel s1 p in
      if is_interrupted n e then again else counted (settled p (n, e, s1))

  -- The loop of `write1` with this many tries left.
  unfoldable pub tries : ℕ → ℕ → S → List ℕ → Count S
  unfolding write
  tries fuel zero s p = record { count = 0; error = some eof; after = s }
  tries fuel (suc n) s p =
      let c = write fuel s p in
      let again = tries fuel n c.after p in if is_errno eagain c.error then again else c

  -- `write1`.
  unfoldable pub write1 : ℕ → S → List ℕ → Count S
  unfolding tries
  write1 fuel s p = tries fuel 3 s p

-- A goroutine of writeFrame that waits for the acknowledgement of a frame, or for the timeout.
pub record Waiting : Type 0 where
  pub seq_num : ℕ
  pub ch : ℕ
  pub req : HdpEvent

-- `hdpWrite2`: `tpt` are the channels to the reader and to itself, `ref_num` is refNum[1],
-- `next_ch` the address of the next channel made, `frames` the frames behind pointers, each with
-- its B and N; `signals` are the channels of `ackDoneCh` on which true was sent.
pub record Writer : Type 0 where
  pub ring : RingBuffer
  pub buffer : BuffrW
  pub peer_seq_num : BufferSn
  pub ack_done_ch : List (ℕ × ℕ)
  pub waiting : List Waiting
  pub signals : List ℕ
  pub tpt_r : ℕ
  pub tpt_w : ℕ
  pub ref_num : ℕ
  pub next_ch : ℕ
  pub frames : List (ℕ × (List ℕ × ℕ))
  pub sent : List Sent

-- `newHdpWrite2`.
unfoldable pub new_hdp_write2 : ℕ → ℕ → ℕ → ℕ → ℕ → List (ℕ × (List ℕ × ℕ)) → Writer
unfolding new_ring_buffer new_buffr_w new_buffer_sn
new_hdp_write2 window_size ref_num tpt_r tpt_w next_ch frames = record {
  ring = new_ring_buffer window_size;
  buffer = new_buffr_w 16;
  peer_seq_num = new_buffer_sn;
  ack_done_ch = [];
  waiting = [];
  signals = [];
  tpt_r = tpt_r;
  tpt_w = tpt_w;
  ref_num = ref_num;
  next_ch = next_ch;
  frames = frames;
  sent = [];
}

unfoldable pub send : ℕ → HdpEvent → Writer → Writer
send ch r w = record w { sent = w.sent ++ (event ch r ∷ []) }

-- An `error` as a value.
abbrev pub error_value : Option Error → Value
error_value none = nil
error_value (some e) = err e

abbrev pub data_mark : Value
data_mark = string Key.data_mark

-- `req.Ch() <- req.With(err, ":data", "byteNum", n)`.
unfoldable pub reply_count : Option Error → ℕ → HdpEvent → Writer → Writer
unfolding send with_args get_ch
reply_count e n req w =
    send (get_ch none req)
      (with_args (error_value e ∷ data_mark ∷ string Key.byte_num ∷ integer int n ∷ []) (some req))
      w
