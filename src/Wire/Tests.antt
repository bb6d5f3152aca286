-- ===== src/Wire/Tests.antt =====
-- transport1.go: the theorems at one header. The checksum of the tests is the sum of the bytes.
use aionet.Common.{ℕ, ◌+◌, ◌%◌, ◌<◌, ◌≡◌, refl, inr, none, List, [], ◌∷◌, arith}
use aionet.Wire.{parse_header}
use aionet.Wire.RoundTrip.{Fields, InWidth, written, Found, header_round_trip}

abbrev sum : List ℕ → ℕ
sum [] = 0
sum (b ∷ bs) = b + sum bs

abbrev checksum : List ℕ → ℕ
checksum bs = sum bs % 65536

checksum_lt : (bs : List ℕ) → checksum bs < 65536
checksum_lt bs = omega arith

abbrev datagram : Fields
datagram = record {
  ref_num = 700;
  seq_num = 70000;
  ack_seq_num = 3;
  flag = 5;
  fsize = 512;
  crc = 65535;
}

datagram-InWidth : InWidth datagram
datagram-InWidth = record {
  ref_num_lt = omega arith;
  seq_num_lt = omega arith;
  ack_seq_num_lt = omega arith;
  flag_lt = omega arith;
  fsize_lt = omega arith;
  crc_lt = omega arith;
}

header_round_trip_example :
    Found checksum datagram (parse_header checksum 700 (written checksum datagram))
header_round_trip_example =
    header_round_trip checksum datagram 700 datagram-InWidth checksum_lt (inr refl)

-- The bytes of a header with the flag HDP_DATA_ACK.
abbrev acknowledgement : List ℕ
acknowledgement = 9 ∷ 0 ∷ 0 ∷ 0 ∷ 0 ∷ 0 ∷ 1 ∷ 0 ∷ 0 ∷ 0 ∷ 4 ∷ 0 ∷ 0 ∷ 0 ∷ 0 ∷ 0 ∷ 14 ∷ 0 ∷ []

acknowledgement_passes : (parse_header checksum 9 acknowledgement).err ≡ none
unfolding parse_header
acknowledgement_passes = refl
