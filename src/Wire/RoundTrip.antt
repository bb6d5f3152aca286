-- ===== src/Wire/RoundTrip.antt =====
-- transport1.go: what parseHeader finds in a header that writeHeader1 made, and in one whose
-- checksum or reference number is wrong.
use aionet.Common.{
  ℕ, ◌+◌, ◌*◌, ◌/◌, ◌%◌, ◌<◌, ◌≡◌, ◌≢◌, ap, ◌∙◌, ◌⊎◌, inl, inr, ◌==◌, ==_refl, true, List, [], ◌∷◌,
  set, none, some, u16, arith,
}
use mathlib.Core.Path.{subst⁻¹}
use aionet.Wire.{
  uint16_at, uint32_at, slice, hdp_data_ack, hdp_datagram, hdp_rmt_closing, peer_closing, Parsed,
  write_header1, verify_checksum1, dispatch, parse_header,
}

pub join16 : (v : ℕ) → v < 65536 → v % 256 + 256 * (v / 256 % 256) ≡ v
join16 v h = omega arith

join32 :
    (v : ℕ)
    → v < 4294967296
    → v % 256 + 256 * (v / 256 % 256) + 65536 * (v / 65536 % 256) + 16777216 * (v / 16777216 % 256)
      ≡ v
join32 v h = omega arith

-- The fields of a header, each within its width.
pub record Fields : Type 0 where
  pub ref_num : ℕ
  pub seq_num : ℕ
  pub ack_seq_num : ℕ
  pub flag : ℕ
  pub fsize : ℕ
  pub crc : ℕ

pub record InWidth (f : Fields) : Type 0 where
  pub ref_num_lt : f.ref_num < 65536
  pub seq_num_lt : f.seq_num < 4294967296
  pub ack_seq_num_lt : f.ack_seq_num < 4294967296
  pub flag_lt : f.flag < 256
  pub fsize_lt : f.fsize < 65536
  pub crc_lt : f.crc < 65536

module _ (crc16 : List ℕ → ℕ) where
  abbrev pub written : Fields → List ℕ
  written f = write_header1 crc16 f.ref_num f.seq_num f.ack_seq_num f.flag f.fsize f.crc

  -- The header before its checksum is put in.
  abbrev unchecked : Fields → List ℕ
  unchecked f =
      f.ref_num % 256
      ∷ f.ref_num / 256 % 256
      ∷ f.seq_num % 256
      ∷ f.seq_num / 256 % 256
      ∷ f.seq_num / 65536 % 256
      ∷ f.seq_num / 16777216 % 256
      ∷ f.ack_seq_num % 256
      ∷ f.ack_seq_num / 256 % 256
      ∷ f.ack_seq_num / 65536 % 256
      ∷ f.ack_seq_num / 16777216 % 256
      ∷ f.flag % 256
      ∷ 0
      ∷ u16 f.fsize % 256
      ∷ u16 f.fsize / 256 % 256
      ∷ f.crc % 256
      ∷ f.crc / 256 % 256
      ∷ 0
      ∷ 0
      ∷ []

  verify_checksum1-written :
      (f : Fields)
      → crc16 (unchecked f) < 65536
      → verify_checksum1 crc16 (written f) ≡ (true, unchecked f)
  unfolding verify_checksum1 write_header1
  verify_checksum1-written f c =
      ap (λ x. (x == crc16 (unchecked f), unchecked f)) (join16 (crc16 (unchecked f)) c)
      ∙ ap (λ x. (x, unchecked f)) (==_refl (crc16 (unchecked f)))

  parse_header-accepts :
      (local : ℕ) (hdr hdr' : List ℕ)
      → (local ≡ 0) ⊎ (local ≡ uint16_at hdr 0)
      → verify_checksum1 crc16 hdr ≡ (true, hdr')
      → parse_header crc16 local hdr ≡ dispatch crc16 hdr'
  unfolding parse_header
  parse_header-accepts local hdr hdr' (inl h) e = ground (arith, h, e)
  parse_header-accepts local hdr hdr' (inr h) e = ground (arith, h, e)

  uint16_at-written : (f : Fields) → f.ref_num < 65536 → uint16_at (written f) 0 ≡ f.ref_num
  unfolding write_header1
  uint16_at-written f h = join16 f.ref_num h

  -- What parseHeader is to find in the header of `f`.
  pub record Found (f : Fields) (r : Parsed) : Type 0 where
    pub opened :
        f.flag ≢ hdp_rmt_closing
        → (r.flag ≡ f.flag)
          × (r.err ≡ none)
          × (d : List ℕ) × (r.data_bytes ≡ some d)
          × (uint16_at d 2 ≡ f.fsize)
          × (uint16_at d 4 ≡ f.crc)
    pub closing : f.flag ≡ hdp_rmt_closing → (r.err ≡ some peer_closing) × (r.to_writer ≡ none)
    pub passed_on :
        (f.flag ≡ hdp_data_ack) ⊎ (f.flag ≡ hdp_datagram)
        → (d : List ℕ) × (r.to_writer ≡ some (f.flag, d))
          × (uint32_at d 0 ≡ f.seq_num)
          × (uint32_at d 4 ≡ f.ack_seq_num)

  dispatch-Found : (f : Fields) → InWidth f → Found f (dispatch crc16 (unchecked f))
  dispatch-Found f v =
      let m : (f.flag % 256 ≡ f.flag) = omega (arith, v.flag_lt) in
      record {
        opened = λ n. (
          ground (arith, m, n),
          ground (arith, m, n),
          slice (unchecked f) 10 6,
          ground (arith, m, n),
          join16 (u16 f.fsize) (omega arith) ∙ omega (arith, v.fsize_lt),
          join16 f.crc v.crc_lt,
        );
        closing = λ e. (ground (arith, m, e), ground (arith, m, e));
        passed_on = λ e. (
          slice (unchecked f) 2 8,
          ground (arith, m, e),
          join32 f.seq_num v.seq_num_lt,
          join32 f.ack_seq_num v.ack_seq_num_lt,
        );
      }

  -- parseHeader of the header that writeHeader1 makes of fields within their widths, at a reader
  -- that knows no reference number yet or knows this one, finds the fields: for every flag but
  -- HDP_RMT_CLOSING it returns the flag and the bytes from which the size and the checksum of the
  -- datagram are read, for HDP_RMT_CLOSING the end of the connection, and for HDP_DATA_ACK and
  -- HDP_DATAGRAM it sends the writer the bytes from which both sequence numbers are read.
  pub header_round_trip :
      (f : Fields) (local : ℕ)
      → InWidth f
      → ((b : List ℕ) → crc16 b < 65536)
      → (local ≡ 0) ⊎ (local ≡ f.ref_num)
      → Found f (parse_header crc16 local (written f))
  header_round_trip f local v c h =
      subst⁻¹ (Found f)
        (parse_header-accepts local (written f) (unchecked f)
          (ground (arith, h, uint16_at-written f v.ref_num_lt))
          (verify_checksum1-written f (c (unchecked f))))
        (dispatch-Found f v)

  -- parseHeader of 18 bytes without an error means that their reference number is the one that the
  -- reader knows, if it knows one, and that their checksum is that of the bytes with it cleared.
  pub parse_header_checks :
      (local : ℕ) (hdr : List ℕ)
      → (parse_header crc16 local hdr).err ≡ none
      → ((local ≡ 0) ⊎ (local ≡ uint16_at hdr 0))
        × (uint16_at hdr 16 ≡ crc16 (set (set hdr 16 0) 17 0))
  unfolding parse_header verify_checksum1
  parse_header_checks local hdr h = (ground (arith, h), ground (arith, h))
