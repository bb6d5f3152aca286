-- ===== src/Transport/Reader.antt =====
-- transport1.go, hdpRead2: the goroutine that reads headers and datagrams for HdpConn.Read. The
-- header is parsed in Wire, the body read in Transport. The answers of the poller are those of the
-- writer's Kernel.
pub mod Headers
pub mod Delivery
mod Tests
use aionet.Common.{
  ℕ, zero, suc, ◌-◌, ltb, ◌==◌, if◌then◌else◌, List, [], ◌∷◌, ◌++◌, length, drop, replicate, Option,
  none, some, is_some, Error, hdp, eof, Go, ret, ◌>>=◌,
}
use aionet.Buffers.Reader as Chunks
use aionet.Buffers.Reader.{BufferR, Written, new_buffer_r}
use aionet.Wire.{
  HeaderError, wrong_peer_ref_num, unequal_checksum, peer_closing, Parsed, parse_header, uint16_at,
  hdp_error,
}
use aionet.EventMap.{HdpEvent, Value, nil, integer, state2, int, bytes, string, value}
use aionet.EventMap.Key
use aionet.EventMap.Build.{with_args, new_event}
use aionet.EventMap.Reads.{get_ch, get_flag2, get_bytes, get_err}
use aionet.EventMap.Channels.{Sent, event}
use aionet.Transport.{Kernel, Call, retry, is_errno, eagain, Body, read3}
use aionet.Transport.Writer as Writer
use aionet.Transport.Writer.{hdp_data_ack, hdp_read1, deadline_key, data_mark, error_value}

-- `hdpRead2`: `ref_num` is refNum[0], `tpt_w` the channel to the writer, and `frame` the bytes of
-- the user's slice after the last read into it.
pub record HdpRead2 : Type 0 where
  pub buffer : BufferR
  pub ref_num : ℕ
  pub tpt_w : ℕ
  pub frame : List ℕ
  pub sent : List Sent

-- `newHdpRead2`.
unfoldable pub new_hdp_read2 : ℕ → ℕ → HdpRead2
unfolding new_buffer_r
new_hdp_read2 ref_num tpt_w = record {
  buffer = new_buffer_r 16;
  ref_num = ref_num;
  tpt_w = tpt_w;
  frame = [];
  sent = [];
}

unfoldable pub send : ℕ → HdpEvent → HdpRead2 → HdpRead2
send ch e r = record r { sent = r.sent ++ (event ch e ∷ []) }

-- `req.Ch() <- req.With(err, ":data", "byteNum", n)`.
unfoldable pub reply_count : Option Error → ℕ → HdpEvent → HdpRead2 → HdpRead2
unfolding send with_args get_ch
reply_count e n req r =
    send (get_ch none req)
      (with_args (error_value e ∷ data_mark ∷ string Key.byte_num ∷ integer int n ∷ []) (some req))
      r

-- The errors of parseHeader.
unfoldable pub header_error : HeaderError → Error
header_error wrong_peer_ref_num = hdp 1
header_error unequal_checksum = hdp 3
header_error peer_closing = eof

abbrev pub to_error : Option HeaderError → Option Error
to_error none = none
to_error (some e) = some (header_error e)

abbrev pub or_empty : Option (List ℕ) → List ℕ
or_empty none = []
or_empty (some b) = b

-- The event of parseHeader to the writer.
unfoldable pub pass_on : Option (ℕ × List ℕ) → HdpRead2 → HdpRead2
unfolding send new_event
pass_on none r = r
pass_on (some e) r =
    send r.tpt_w (new_event (integer state2 e.0 ∷ data_mark ∷ string Key.bytes ∷ bytes e.1 ∷ [])) r

-- What parseHeader returns: the flag, the data and the error.
pub record Header : Type 0 where
  pub flag : ℕ
  pub data_bytes : List ℕ
  pub err : Option Error

abbrev pub ignore_eof : Option Error → Option Error
ignore_eof (some eof) = none
ignore_eof e = e

module _ {S : Type 0} (k : Kernel S) (waits : Writer.Kernel S) (crc16 : List ℕ → ℕ) (fuel : ℕ) where
  -- A round of the loop of `read1`, whose read gave c, before the rest of the loop.
  unfoldable pub after_read : Call S → Call S → Call S
  after_read c again =
      if is_errno eagain c.err
      then again
      else if is_some c.err
      then record { bytes = []; err = c.err; after = c.after }
      else c

  -- The loop of `read1` with this many tries left, into a slice of n bytes.
  unfoldable pub tries : ℕ → S → ℕ → Call S
  unfolding after_read
  tries zero s n = record { bytes = []; err = some eof; after = s }
  tries (suc t) s n =
      let c = retry k.read fuel s n in let again = tries t c.after n in after_read c again

  -- `read1` after it waited.
  unfoldable pub read_ready : ℕ → Option Error × S → Call S
  unfolding tries
  read_ready n (some e, s) = record { bytes = []; err = some e; after = s }
  read_ready n (none, s) = tries 3 s n

  -- `read1`.
  unfoldable pub read1 : S → ℕ → Call S
  unfolding read_ready
  read1 s n = read_ready n (waits.wait s 2)

  -- What parseHeader returns and sends of a header that is parsed.
  unfoldable pub header_result : HdpRead2 → S → Parsed → Header × HdpRead2 × S
  unfolding header_error pass_on
  header_result r s p = (
    record { flag = p.flag; data_bytes = or_empty p.data_bytes; err = to_error p.err },
    pass_on p.to_writer r,
    s,
  )

  -- parseHeader after its read into hdr.
  unfoldable pub header_read : HdpRead2 → Call S → Header × HdpRead2 × S
  unfolding header_result
  header_read r c =
      let hdr = c.bytes ++ drop (length c.bytes) (replicate 18 0) in
      if is_some c.err
      then (record { flag = hdp_error; data_bytes = []; err = c.err }, r, c.after)
      else header_result r c.after (parse_header crc16 r.ref_num hdr)

  -- `parseHeader`.
  unfoldable pub read_header : HdpRead2 → S → Header × HdpRead2 × S
  unfolding read1 header_read
  read_header r s = header_read r (read1 s 18)

  -- read2 after read3.
  unfoldable pub body_read : HdpEvent → HdpRead2 → Body S → HdpRead2 × S
  unfolding reply_count
  body_read req r b =
      (reply_count b.err b.count req (record r { buffer = b.buffer; frame = b.frame }), b.after)

  -- read2 into the slice f: an empty one gets no reply.
  unfoldable pub read2_into : HdpEvent → List ℕ → List ℕ → HdpRead2 → S → HdpRead2 × S
  read2_into req f d r s =
      if length f == 0
      then (r, s)
      else body_read req r (read3 crc16 k fuel s r.buffer f (uint16_at d 2) (uint16_at d 4))

  -- `read2`.
  unfoldable pub read2 : HdpEvent → List ℕ → HdpRead2 → S → HdpRead2 × S
  unfolding read2_into get_bytes
  read2 req d r s = read2_into req (get_bytes none req) d r s

  -- readFrame after parseHeader.
  unfoldable pub frame_header : HdpEvent → Header × HdpRead2 × S → HdpRead2 × S
  unfolding reply_count send new_event get_ch read2
  frame_header req (h, r, s) =
      if is_some h.err
      then (reply_count h.err 0 req r, s)
      else if h.flag == hdp_data_ack
      then (send (get_ch none req) (new_event []) r, s)
      else read2 req h.data_bytes r s

  -- readFrame from the buffer, whose Read gave w of the bytes of f.
  unfoldable pub from_buffer : HdpEvent → List ℕ → HdpRead2 → Written → HdpRead2
  unfolding reply_count
  from_buffer req f r w =
      reply_count (ignore_eof w.err) w.count req
        (record r { buffer = w.buffer; frame = w.bytes ++ drop (length w.bytes) f })

  -- `readFrame`, with what Len and Read make of the buffer.
  unfoldable pub read_frame : HdpEvent → HdpRead2 → S → Go (HdpRead2 × S)
  unfolding Chunks.len get_bytes read_header frame_header from_buffer
  read_frame req r s =
      let (n, b) = Chunks.len r.buffer in
      let f = get_bytes none req in
      let r1 : HdpRead2 = record r { buffer = b } in
      if n == 0
      then ret (frame_header req (read_header r1 s))
      else Chunks.read b (length f) >>= λ w. ret (from_buffer req f r1 w, s)

  -- `setDeadline`, with the answer of the poller.
  unfoldable pub set_deadline : HdpEvent → HdpRead2 → S → HdpRead2 × S
  unfolding value send with_args get_ch
  set_deadline req r s =
      let (e, s1) = waits.deadline s 2 (value deadline_key req) in
      (send (get_ch none req) (with_args (error_value e ∷ []) (some req)) r, s1)

  -- The case HDP_READ1 of `handle`, by the value under "deadline".
  unfoldable pub read_or_deadline : Value → HdpEvent → HdpRead2 → S → Go (HdpRead2 × S)
  unfolding read_frame set_deadline
  read_or_deadline nil req r s = read_frame req r s
  read_or_deadline v req r s = ret (set_deadline req r s)

  -- `handle`: the results of parseHeader are dropped for HDP_DATA_ACK.
  unfoldable pub handle : HdpEvent → HdpRead2 → S → Go (HdpRead2 × S)
  unfolding read_header read_or_deadline get_flag2 value
  handle req r s =
      let flag = get_flag2 none req in
      if flag == hdp_data_ack
      then (let x = read_header r s in ret (x.1, x.2))
      else if flag == hdp_read1
      then read_or_deadline (value deadline_key req) req r s
      else ret (r, s)

  -- The loop of `run` over the events received, up to one with an error.
  unfoldable pub run : List HdpEvent → HdpRead2 → S → Go (HdpRead2 × S)
  unfolding handle get_err
  run [] r s = ret (r, s)
  run (ev ∷ evs) r s =
      if is_some (get_err none ev) then ret (r, s) else handle ev r s >>= λ (r1, s1). run evs r1 s1
