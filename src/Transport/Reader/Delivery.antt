-- ===== src/Transport/Reader/Delivery.antt =====
-- transport1.go: what writeFrame of one side writes, readFrame of the other delivers.
use aionet.Common.{
  ℕ, suc, ◌≡◌, ◌≤◌, ◌<◌, refl, ap, ◌∙◌, ◌⊎◌, inr, arith, List, [], ◌∷◌, ◌++◌, length, drop, none,
  some, ret, ==_ne, ==_refl,
}
use aionet.Buffers.Reader.{len, total}
use aionet.Wire.{write_header, uint16_at, uint32_at, hdp_datagram}
use aionet.Wire.RoundTrip.{Fields, InWidth}
use aionet.EventMap.{HdpEvent, nil, string, integer, int}
use aionet.EventMap.Key
use aionet.EventMap.Build.{with_args}
use aionet.EventMap.Channels.{event}
use aionet.EventMap.Reads.{get_bytes, get_ch}
use aionet.Transport.{Kernel, verify_checksum}
use aionet.Transport.Datagram.{NextIs, datagram_split}
use aionet.Transport.Writer as Writer
use aionet.Transport.Reader.Headers.{read_header-passes}
use aionet.Transport.Reader.{
  HdpRead2, send, reply_count, pass_on, read_header, body_read, read2, read2_into, frame_header,
  read_frame,
}

abbrev pub fields : (List ℕ → ℕ) → ℕ → ℕ → ℕ → List ℕ → Fields
fields crc16 ref n a b = record {
  ref_num = ref;
  seq_num = n;
  ack_seq_num = a;
  flag = hdp_datagram;
  fsize = length b;
  crc = crc16 b;
}

-- The reader after it has delivered b with sequence bytes d into the slice f.
unfoldable pub delivered : HdpEvent → List ℕ → List ℕ → List ℕ → HdpRead2 → HdpRead2
delivered req f d b r =
    let r1 = pass_on (some (hdp_datagram, d)) r in
    let reply =
      with_args (nil ∷ string Key.data_mark ∷ string Key.byte_num ∷ integer int (length b) ∷ [])
        (some req) in
    record r1 {
      frame = b ++ drop (length b) f;
      sent = r1.sent ++ (event (get_ch none req) reply ∷ []);
    }

module _ {S : Type 0} (k : Kernel S) (waits : Writer.Kernel S) (crc16 : List ℕ → ℕ) (fuel : ℕ) where
  frame_header-datagram :
      (req : HdpEvent) (d : List ℕ) (r : HdpRead2) (s : S)
      → frame_header k waits crc16 fuel req
          (record { flag = hdp_datagram; data_bytes = d; err = none }, r, s)
        ≡ read2 k waits crc16 fuel req d r s
  unfolding frame_header
  frame_header-datagram req d r s = refl

  read2_into-fits :
      (req : HdpEvent) (f d b : List ℕ) (r : HdpRead2) (s s1 : S)
      → NextIs k s b s1
      → 0 < length b
      → length b ≤ length f
      → uint16_at d 2 ≡ length b
      → uint16_at d 4 ≡ crc16 b
      → read2_into k waits crc16 (suc fuel) req f d r s
        ≡ body_read k waits crc16 (suc fuel) req r (record {
          frame = b ++ drop (length b) f;
          count = length b;
          err = verify_checksum crc16 b (crc16 b);
          buffer = r.buffer;
          after = s1;
        })
  unfolding read2_into
  read2_into-fits req f d b r s s1 next pos fits size crc =
      rw
        (
          ==_ne (length f) 0 (omega arith),
          size,
          crc,
          (datagram_split crc16 k fuel (crc16 b) s s1 r.buffer f b next pos (omega arith)).0 fits,
        )
        refl

  read_frame-unbuffered :
      (req : HdpEvent) (r : HdpRead2) (s : S)
      → r.buffer.this ≡ []
      → read_frame k waits crc16 fuel req r s
        ≡ ret (
            frame_header k waits crc16 fuel req
              (read_header k waits crc16 fuel (record r { buffer = (len r.buffer).1 }) s))
  unfolding read_frame len
  read_frame-unbuffered req r s e = rw (ap total e) refl

  verify_checksum_self : (b : List ℕ) → verify_checksum crc16 b (crc16 b) ≡ none
  unfolding verify_checksum
  verify_checksum_self b = rw (==_refl (crc16 b)) refl

  body_read-delivered :
      (req : HdpEvent) (f d b : List ℕ) (r : HdpRead2) (s : S)
      → body_read k waits crc16 (suc fuel) req (pass_on (some (hdp_datagram, d)) r) (record {
        frame = b ++ drop (length b) f;
        count = length b;
        err = verify_checksum crc16 b (crc16 b);
        buffer = r.buffer;
        after = s;
      })
        ≡ (delivered req f d b r, s)
  unfolding body_read delivered pass_on send reply_count
  body_read-delivered req f d b r s =
      ap
        (λ e. (
          reply_count e (length b) req
              (record (pass_on (some (hdp_datagram, d)) r) { frame = b ++ drop (length b) f }),
          s,
        ))
        (verify_checksum_self b)

module _ {S : Type 0} (k : Kernel S) (waits : Writer.Kernel S) (crc16 : List ℕ → ℕ) (fuel : ℕ) where
  pub read_frame-delivers :
      (req : HdpEvent) (r : HdpRead2) (ref n a : ℕ) (b : List ℕ) (s s1 s2 s3 : S)
      → ((x : List ℕ) → crc16 x < 65536)
      → InWidth (fields crc16 ref n a b)
      → (r.ref_num ≡ 0) ⊎ (r.ref_num ≡ ref)
      → r.buffer.this ≡ []
      → 0 < length b
      → length b ≤ length (get_bytes none req)
      → waits.wait s 2 ≡ (none, s1)
      → NextIs k s1 (write_header crc16 ref n a b) s2
      → NextIs k s2 b s3
      → (d : List ℕ) × (length d ≡ 8)
        × (uint32_at d 0 ≡ n)
        × (uint32_at d 4 ≡ a)
        × (read_frame k waits crc16 (suc fuel) req r s
            ≡ ret (
              delivered req (get_bytes none req) d b (record r { buffer = (len r.buffer).1 }),
              s3,
            ))
  unfolding read2 write_header pass_on len
  read_frame-delivers req r ref n a b s s1 s2 s3 c v known empty pos fits w head body =
      let r1 : HdpRead2 = record r { buffer = (len r.buffer).1 } in
      let (d1, d, is_size, is_crc, eight, is_n, is_a, reads) =
        read_header-passes k waits crc16 fuel r1 (fields crc16 ref n a b) s s1 s2 c v known
          (inr refl) (λ e. omega (arith, e)) w head in
      (
        d,
        eight,
        is_n,
        is_a,
        read_frame-unbuffered k waits crc16 (suc fuel) req r s empty
            ∙ ap (λ x. ret (frame_header k waits crc16 (suc fuel) req x)) reads
            ∙ ap ret (
                frame_header-datagram k waits crc16 (suc fuel) req d1
                  (pass_on (some (hdp_datagram, d)) r1) s2
                ∙ read2_into-fits k waits crc16 fuel req (get_bytes none req) d1 b
                    (pass_on (some (hdp_datagram, d)) r1) s2 s3 body pos fits is_size is_crc
                ∙ body_read-delivered k waits crc16 fuel req (get_bytes none req) d b r1 s3),
      )

  -- A reader with nothing in its buffer that knows no reference number yet, or knows the writer's,
  -- and is woken without an error, gets as its next two datagrams a header that writeHeader made
  -- for the bytes b, from numbers within their widths, and then b, of at least one byte and no more
  -- than the user's slice holds: readFrame returns, with b at the start of the slice; it sends the
  -- writer the bytes from which both sequence numbers are read, and replies with the number of
  -- bytes and no error.
  pub frame_delivered :
      (req : HdpEvent) (r : HdpRead2) (ref n a : ℕ) (b : List ℕ) (s s1 s2 s3 : S)
      → ((x : List ℕ) → crc16 x < 65536)
      → InWidth (fields crc16 ref n a b)
      → (r.ref_num ≡ 0) ⊎ (r.ref_num ≡ ref)
      → r.buffer.this ≡ []
      → 0 < length b
      → length b ≤ length (get_bytes none req)
      → waits.wait s 2 ≡ (none, s1)
      → NextIs k s1 (write_header crc16 ref n a b) s2
      → NextIs k s2 b s3
      → (d : List ℕ) × (uint32_at d 0 ≡ n)
        × (uint32_at d 4 ≡ a)
        × (read_frame k waits crc16 (suc fuel) req r s
            ≡ ret (
              delivered req (get_bytes none req) d b (record r { buffer = (len r.buffer).1 }),
              s3,
            ))
  frame_delivered req r ref n a b s s1 s2 s3 c v known empty pos fits w head body =
      let (d, _, is_n, is_a, reads) =
        read_frame-delivers req r ref n a b s s1 s2 s3 c v known empty pos fits w head body in
      (d, is_n, is_a, reads)
