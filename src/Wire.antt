-- ===== src/Wire.antt =====
-- transport1.go and base.go: the 18-byte header before each datagram, written by hdpWrite2 and
-- parsed by hdpRead2. A byte is its number. `crc16` stands for crc16.Checksum with the IBM table.
pub mod RoundTrip
mod Tests
use aionet.Common.{
  ℕ, ◌+◌, ◌*◌, ◌/◌, ◌%◌, ◌==◌, ◌&&◌, not, Bool, if◌then◌else◌, List, [], ◌∷◌, length, get_elem?,
  set, take, drop, replicate, Option, none, some, u16,
}

-- `b[i]` of a header, whose 18 bytes are all there.
abbrev pub byte_at : List ℕ → ℕ → ℕ
byte_at b i = elim (get_elem? b i) [ none ↦ 0 | some x ↦ x ]

-- binary.LittleEndian at an offset of a slice.
abbrev pub put_uint16 : List ℕ → ℕ → ℕ → List ℕ
put_uint16 b i v = set (set b i (v % 256)) (i + 1) (v / 256 % 256)

abbrev pub put_uint32 : List ℕ → ℕ → ℕ → List ℕ
put_uint32 b i v =
    set (set (set (set b i (v % 256)) (i + 1) (v / 256 % 256)) (i + 2) (v / 65536 % 256)) (i + 3)
      (v / 16777216 % 256)

abbrev pub uint16_at : List ℕ → ℕ → ℕ
uint16_at b i = byte_at b i + 256 * byte_at b (i + 1)

abbrev pub uint32_at : List ℕ → ℕ → ℕ
uint32_at b i =
    byte_at b i + 256 * byte_at b (i + 1) + 65536 * byte_at b (i + 2) + 16777216 * byte_at b (i + 3)

-- `b[lo:hi]`.
abbrev pub slice : List ℕ → ℕ → ℕ → List ℕ
slice b lo n = take n (drop lo b)

-- The flags of dtype/const.go that the header carries.
abbrev pub hdp_data_ack : ℕ
hdp_data_ack = 4

abbrev pub hdp_datagram : ℕ
hdp_datagram = 5

abbrev pub hdp_error : ℕ
hdp_error = 6

abbrev pub hdp_rmt_closing : ℕ
hdp_rmt_closing = 17

-- The errors of parseHeader after its read; `peer_closing` is the io.EOF of a closing notice.
pub data HeaderError : Type 0 where
  wrong_peer_ref_num unequal_checksum peer_closing : HeaderError

-- What parseHeader returns, and the event that it sends to the writer: its flag and `hdr[2:10]`.
pub record Parsed : Type 0 where
  pub flag : ℕ
  pub data_bytes : Option (List ℕ)
  pub err : Option HeaderError
  pub to_writer : Option (ℕ × List ℕ)

module _ (crc16 : List ℕ → ℕ) where
  -- The header that `writeHeader1` hands to write1; `ref_num` is `c.refNum[1]`.
  unfoldable pub write_header1 : ℕ → ℕ → ℕ → ℕ → ℕ → ℕ → List ℕ
  write_header1 ref_num seq_num ack_seq_num flag fsize crc =
      let h0 = put_uint16 (replicate 18 0) 0 ref_num in
      let h1 = put_uint32 h0 2 seq_num in
      let h2 = put_uint32 h1 6 ack_seq_num in
      let h3 = set h2 10 (flag % 256) in
      let h4 = put_uint16 h3 12 (u16 fsize) in
      let h5 = put_uint16 h4 14 crc in put_uint16 h5 16 (crc16 h5)

  -- `writeHeader`.
  unfoldable pub write_header : ℕ → ℕ → ℕ → List ℕ → List ℕ
  unfolding write_header1
  write_header ref_num seq_num ack_seq_num frame =
      write_header1 ref_num seq_num ack_seq_num hdp_datagram (length frame) (crc16 frame)

  -- `verifyChecksum1`: the verdict, and the bytes, whose checksum it clears.
  unfoldable pub verify_checksum1 : List ℕ → Bool × List ℕ
  verify_checksum1 b = let b' = set (set b 16 0) 17 0 in (uint16_at b 16 == crc16 b', b')

  abbrev pub failed : HeaderError → Parsed
  failed e = record { flag = hdp_error; data_bytes = none; err = some e; to_writer = none }

  abbrev pub passed : ℕ → List ℕ → Option (ℕ × List ℕ) → Parsed
  passed flag hdr event = record {
    flag = flag;
    data_bytes = some (slice hdr 10 6);
    err = none;
    to_writer = event;
  }

  -- The switch on the flag that ends parseHeader.
  abbrev pub dispatch : List ℕ → Parsed
  dispatch hdr =
      let flag = byte_at hdr 10 in
      if flag == hdp_rmt_closing
      then record {
        flag = hdp_rmt_closing;
        data_bytes = none;
        err = some peer_closing;
        to_writer = none;
      }
      else if flag == hdp_data_ack
      then passed flag hdr (some (hdp_data_ack, slice hdr 2 8))
      else if flag == hdp_datagram
      then passed flag hdr (some (hdp_datagram, slice hdr 2 8))
      else passed flag hdr none

  -- `parseHeader` once read1 has filled `hdr`; `ref_num` is `c.refNum[0]`.
  unfoldable pub parse_header : ℕ → List ℕ → Parsed
  unfolding verify_checksum1
  parse_header ref_num hdr =
      if not (ref_num == 0) && not (ref_num == uint16_at hdr 0)
      then failed wrong_peer_ref_num
      else (let checked = verify_checksum1 hdr in
          if checked.0 then dispatch (checked.1) else failed unequal_checksum)
