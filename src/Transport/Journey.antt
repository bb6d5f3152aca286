-- ===== src/Transport/Journey.antt =====
-- transport1.go: the way of a frame, from the datagrams of one side's writer to the user of the
-- other side, and of its acknowledgement back to the goroutine that waits for it.
mod Tests
use aionet.Common.{
  get_elem?, ◌-◌, ◌%◌, ℕ, suc, ◌≡◌, ◌≤◌, ◌<◌, refl, ap, ◌∙◌, ◌⊎◌, List, [], ◌∷◌, ◌++◌, length,
  Option, none, some, true, ret, lookup, Error,
}
use aionet.RingBuffer.Valid.{IsValid, IsSeqNum}
use aionet.RingBuffer.{RingItem}
use aionet.RingBuffer.Acknowledge.{Acknowledged}
use aionet.Buffers.{is_empty}
use aionet.Buffers.Reader.{len}
use aionet.Wire.{write_header, hdp_data_ack, hdp_datagram}
use aionet.Wire.RoundTrip.{InWidth, written}
use aionet.EventMap.{HdpEvent}
use aionet.EventMap.Build.{new_event, with_args}
use aionet.EventMap.Channels.{Sent, event}
use aionet.EventMap.Reads.{get_bytes, get_ch}
use aionet.Transport.{Kernel}
use aionet.Transport.Datagram.{NextIs}
use aionet.Transport.Writer as Writer
use aionet.Transport.Writer.{Writer, Waiting, write1}
use aionet.Transport.Writer.Handlers.{handle, frame_acknowledged}
use aionet.Transport.Reader.{HdpRead2, read_header, read_frame, pass_on, reply_count, send}
use aionet.Transport.Reader.Delivery.{fields, delivered, read_frame-delivers}
use aionet.Transport.Acknowledgement.{passed, acknowledging, acknowledgement_returns}

-- What a reader sends when it delivers a frame: the numbers to its writer, and the reply to the
-- user.
delivered-sent :
    (req : HdpEvent) (f d b : List ℕ) (r : HdpRead2)
    → (reply : HdpEvent) × ((delivered req f d b r).sent
        ≡ (r.sent ++ (event r.tpt_w (passed hdp_datagram d) ∷ []))
          ++ (event (get_ch none req) reply ∷ []))
unfolding delivered reply_count pass_on send
delivered-sent req f d b r = (_, refl)

module _ {S P : Type 0} (k : Kernel S) (waits : Writer.Kernel S) (peer_k : Kernel P)
    (peer : Writer.Kernel P) (crc16 : List ℕ → ℕ) (fuel : ℕ) where
  -- A frame of the bytes b with the number n of this side's writer w is delivered and acknowledged.
  -- When its header and b are the next datagrams of the peer's reader rp, which is woken without an
  -- error, readFrame puts b in the user's slice, sends the header's numbers d to the peer's writer
  -- v, and then replies to the user. On d the writer v, with no frame of its own in its buffer,
  -- writes a header that acknowledges n. When that header is the next datagram of this side's
  -- reader rs, parseHeader passes its numbers d1 on; on d1 the writer w signals the channel that it
  -- keeps for n. When the ring of w holds, at the slot of n, an item with the number n, the
  -- goroutine of the frame, with the signalled writer, then acknowledges that item: it is reset, and
  -- when it was the oldest one the next one that is outstanding becomes the oldest, if there is
  -- one; and the frame is out of the buffer.
  pub frame_is_acknowledged :
      (w v : Writer) (rs rp : HdpRead2) (x : Waiting) (item : RingItem) (req : HdpEvent)
      (b : List ℕ) (n ch q : ℕ) (t p p1 p2 p3 : P) (s s1 s2 : S)
      → ((y : List ℕ) → crc16 y < 65536)
      → InWidth (fields crc16 w.ref_num n 0 b)
      → (rp.ref_num ≡ 0) ⊎ (rp.ref_num ≡ w.ref_num)
      → rp.buffer.this ≡ []
      → 0 < length b
      → length b ≤ length (get_bytes none req)
      → peer.wait p 2 ≡ (none, p1)
      → NextIs peer_k p1 (write_header crc16 w.ref_num n 0 b) p2
      → NextIs peer_k p2 b p3
      → v.ref_num < 65536
      → (rs.ref_num ≡ 0) ⊎ (rs.ref_num ≡ v.ref_num)
      → is_empty v.buffer ≡ true
      → IsSeqNum n
      → waits.wait s 2 ≡ (none, s1)
      → NextIs k s1 (written crc16 (acknowledging v.ref_num n)) s2
      → lookup n w.ack_done_ch ≡ some ch
      → x.seq_num ≡ n
      → IsValid w.ring
      → get_elem? w.ring.this ((n - 1) % w.ring.gyro.window) ≡ some (some q)
      → get_elem? w.ring.heap q ≡ some item
      → item.seq_num ≡ n
      → (d : List ℕ) × (reply : HdpEvent) × (let rp1 =
            delivered req (get_bytes none req) d b (record rp { buffer = (len rp.buffer).1 }) in
          (read_frame peer_k peer crc16 (suc fuel) req rp p ≡ ret (rp1, p3))
          × (rp1.sent
              ≡ (rp.sent ++ (event rp.tpt_w (passed hdp_datagram d) ∷ []))
                ++ (event (get_ch none req) reply ∷ [])))
        × (handle peer crc16 fuel (passed hdp_datagram d) v t
            ≡ ret (v, (write1 peer fuel t (written crc16 (acknowledging v.ref_num n))).after))
        × ((d0 d1 : List ℕ) × (read_header k waits crc16 (suc fuel) rs s ≡ (
          record { flag = hdp_data_ack; data_bytes = d0; err = none },
          pass_on (some (hdp_data_ack, d1)) rs,
          s2,
        ))
            × (handle waits crc16 fuel (passed hdp_data_ack d1) w s2
                ≡ ret (record w { signals = w.signals ++ (ch ∷ []) }, s2)))
        × ((u : Writer) × (frame_acknowledged x (record w { signals = w.signals ++ (ch ∷ []) })
              ≡ ret u)
            × Acknowledged w.ring ((n - 1) % w.ring.gyro.window) q item u.ring
            × (get_elem? u.ring.heap q ≡ some (record { seq_num = 0; acknowledged = true }))
            × (lookup n u.buffer.this ≡ none))
  frame_is_acknowledged w v rs rp x item req b n ch q t p p1 p2 p3 s s1 s2 c width known empty pos
        fits awake head body small knows idle seq woken back found is_x valid slot heap same =
      let (d, eight, first, _, reads) =
        read_frame-delivers peer_k peer crc16 fuel req rp w.ref_num n 0 b p p1 p2 p3 c width known
          empty pos fits awake head body in
      let (reply, sent) =
        delivered-sent req (get_bytes none req) d b (record rp { buffer = (len rp.buffer).1 }) in
      let (answers, comes_back, settles) =
        acknowledgement_returns k waits peer crc16 fuel v w rs x item d n ch q t s s1 s2 c small
          knows idle eight first seq woken back found is_x valid slot heap same in
      (d, reply, (reads, sent), answers, comes_back, settles)
