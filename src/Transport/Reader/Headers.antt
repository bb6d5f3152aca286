-- ===== src/Transport/Reader/Headers.antt =====
-- transport1.go: what writeHeader1 of one side writes, parseHeader of the other reads and passes
-- on.
use aionet.Common.{
  ℕ, suc, ◌≡◌, ◌≢◌, ◌<◌, refl, ap, ◌∙◌, ◌⊎◌, arith, List, length, drop, set, length-set,
  length-take, length-drop, take_all, append-nil, none, some,
}
use aionet.Wire.{
  Parsed, dispatch, verify_checksum1, parse_header, write_header1, uint32_at, hdp_data_ack,
  hdp_datagram, hdp_rmt_closing, uint16_at,
}
use aionet.Wire.RoundTrip.{header_round_trip, Fields, InWidth, written}
use aionet.Transport.{Kernel}
use aionet.Transport.Datagram.{NextIs, retry-some}
use aionet.Transport.Writer as Writer
use aionet.Transport.Reader.{
  HdpRead2, pass_on, after_read, tries, read_ready, read1, header_result, header_read, read_header,
}

length-written : (crc16 : List ℕ → ℕ) (f : Fields) → length (written crc16 f) ≡ 18
unfolding write_header1
length-written crc16 f = refl

dispatch-length :
    (crc16 : List ℕ → ℕ) (hdr : List ℕ) (n : ℕ) (d : List ℕ)
    → length hdr ≡ 18
    → (dispatch crc16 hdr).to_writer ≡ some (n, d)
    → length d ≡ 8
dispatch-length crc16 hdr n d l h = ground (arith, h, length-take 8 (drop 2 hdr), length-drop 2 hdr)

-- The bytes that the reader passes on are 8.
to_writer-length :
    (crc16 : List ℕ → ℕ) (local : ℕ) (hdr : List ℕ) (n : ℕ) (d : List ℕ)
    → length hdr ≡ 18
    → (parse_header crc16 local hdr).to_writer ≡ some (n, d)
    → length d ≡ 8
unfolding parse_header verify_checksum1
to_writer-length crc16 local hdr n d l h = ground (
  arith,
  h,
  dispatch-length crc16 (set (set hdr 16 0) 17 0) n d,
  length-set hdr 16 0,
  length-set (set hdr 16 0) 17 0,
)

module _ {S : Type 0} (k : Kernel S) (waits : Writer.Kernel S) (crc16 : List ℕ → ℕ) (fuel : ℕ) where
  -- A header datagram of 18 bytes is read whole.
  read1-header :
      (s s1 s2 : S) (hdr : List ℕ)
      → length hdr ≡ 18
      → waits.wait s 2 ≡ (none, s1)
      → NextIs k s1 hdr s2
      → read1 k waits crc16 (suc fuel) s 18 ≡ record { bytes = hdr; err = none; after = s2 }
  unfolding read1 read_ready tries after_read
  read1-header s s1 s2 hdr l w next =
      ap (read_ready k waits crc16 (suc fuel) 18) w
      ∙ ap
          (λ c. after_read k waits crc16 (suc fuel) c (tries k waits crc16 (suc fuel) 2 c.after 18))
          (retry-some k.read fuel 18 s1 s2 hdr
            (next.reads 18 ∙ ap (λ x. (x, none, s2)) (take_all hdr 18 (omega (arith, l))))
            (omega (arith, l)))

  header_read-whole :
      (r : HdpRead2) (hdr : List ℕ) (s : S)
      → length hdr ≡ 18
      → header_read k waits crc16 (suc fuel) r (record { bytes = hdr; err = none; after = s })
        ≡ header_result k waits crc16 (suc fuel) r s (parse_header crc16 r.ref_num hdr)
  unfolding header_read
  header_read-whole r hdr s l = rw (l, append-nil hdr) refl

  -- A header whose parse found a flag, with the bytes d, and d1 for the writer.
  header_result-passed :
      (r : HdpRead2) (s : S) (p : Parsed) (flag : ℕ) (d d1 : List ℕ)
      → p.flag ≡ flag
      → p.err ≡ none
      → p.data_bytes ≡ some d
      → p.to_writer ≡ some (flag, d1)
      → header_result k waits crc16 (suc fuel) r s p
        ≡ (record { flag = flag; data_bytes = d; err = none }, pass_on (some (flag, d1)) r, s)
  unfolding header_result
  header_result-passed r s p flag d d1 e1 e2 e3 e4 = rw (e1, e2, e3, e4) refl

  -- A header for f that arrives at a reader which knows its reference number, or none.
  pub read_header-passes :
      (r : HdpRead2) (f : Fields) (s s1 s2 : S)
      → ((x : List ℕ) → crc16 x < 65536)
      → InWidth f
      → (r.ref_num ≡ 0) ⊎ (r.ref_num ≡ f.ref_num)
      → (f.flag ≡ hdp_data_ack) ⊎ (f.flag ≡ hdp_datagram)
      → f.flag ≢ hdp_rmt_closing
      → waits.wait s 2 ≡ (none, s1)
      → NextIs k s1 (written crc16 f) s2
      → (d d1 : List ℕ) × (uint16_at d 2 ≡ f.fsize)
        × (uint16_at d 4 ≡ f.crc)
        × (length d1 ≡ 8)
        × (uint32_at d1 0 ≡ f.seq_num)
        × (uint32_at d1 4 ≡ f.ack_seq_num)
        × (read_header k waits crc16 (suc fuel) r s ≡ (
          record { flag = f.flag; data_bytes = d; err = none },
          pass_on (some (f.flag, d1)) r,
          s2,
        ))
  unfolding read_header
  read_header-passes r f s s1 s2 c v known passed opens w next =
      let hdr = written crc16 f in
      let found = header_round_trip crc16 f r.ref_num v c known in
      let (is_flag, no_err, d, has_data, is_size, is_crc) = found.opened opens in
      let (d1, to, is_n, is_a) = found.passed_on passed in
      let l = length-written crc16 f in
      (
        d,
        d1,
        is_size,
        is_crc,
        to_writer-length crc16 r.ref_num hdr f.flag d1 l to,
        is_n,
        is_a,
        ap (header_read k waits crc16 (suc fuel) r) (read1-header s s1 s2 hdr l w next)
            ∙ header_read-whole r hdr s2 l
            ∙ header_result-passed r s2 (parse_header crc16 r.ref_num hdr) f.flag d d1 is_flag
                no_err has_data to,
      )
