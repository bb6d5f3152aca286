-- ===== src/Handshake/Tests.antt =====
-- transport.go: the handshake at one dialer and one listener. The checksum of the tests is the sum
-- of the bytes.
use aionet.Common.{ℕ, ◌+◌, ◌%◌, ◌<◌, ◌≤◌, ◌≡◌, refl, none, some, List, [], ◌∷◌, hdp, arith}
use aionet.Wire.{verify_checksum1}
use aionet.Wire.RoundTrip.{Fields, InWidth}
use aionet.Handshake.{
  Endpoint, get_ref_num, header, acknow_accept, acknow_open, on_accept_acknow, on_open_acknow,
  message, read_handle, write_handle, on_accept, on_connect_acknow, connect_hdp, acknow_connect,
}
use aionet.Handshake.Messages.{IsEndpoint}
use aionet.Handshake.Agreement.{
  Exchange, exchange, handshake_agrees, stranger_refused, get_ref_num_range,
}

abbrev sum : List ℕ → ℕ
sum [] = 0
sum (b ∷ bs) = b + sum bs

abbrev checksum : List ℕ → ℕ
checksum bs = sum bs % 65536

checksum_lt : (bs : List ℕ) → checksum bs < 65536
checksum_lt bs = omega arith

abbrev dialer : Endpoint
dialer = record { ref0 = 2000; ref1 = 0; read_window = 16; write_window = 32 }

abbrev listener : Endpoint
listener = record { ref0 = 3000; ref1 = 0; read_window = 16; write_window = 16 }

dialer-IsEndpoint : IsEndpoint dialer
dialer-IsEndpoint = record { own = omega arith; peer = omega arith; window = omega arith }

listener-IsEndpoint : IsEndpoint listener
listener-IsEndpoint = record { own = omega arith; peer = omega arith; window = omega arith }

wrapped_ref_num_in_range : (1000 ≤ get_ref_num 65541) × (get_ref_num 65541 < 65536)
wrapped_ref_num_in_range = get_ref_num_range 65541

handshake_agrees_example :
    let x : Exchange = exchange checksum dialer listener in
    (x.accepted ≡ none)
    × (x.connect_acknowledged ≡ none)
    × (x.accept_acknowledged ≡ none)
    × (x.open_acknowledged ≡ none)
    × (x.dialer ≡ record { ref0 = 2000; ref1 = 3000; read_window = 16; write_window = 32 })
    × (x.listener ≡ record { ref0 = 3000; ref1 = 2000; read_window = 32; write_window = 16 })
handshake_agrees_example =
    handshake_agrees checksum checksum_lt dialer listener dialer-IsEndpoint listener-IsEndpoint

stranger_refused_example :
    (on_accept_acknow checksum listener (header (acknow_accept checksum dialer))
      ≡ (record listener { ref1 = 2000 }, some (hdp 1)))
    × (on_open_acknow checksum listener (header (acknow_open checksum dialer))
        ≡ (listener, some (hdp 1)))
stranger_refused_example =
    stranger_refused checksum checksum_lt listener dialer dialer-IsEndpoint (λ e. ground (arith, e))
      (λ e. ground (arith, e))

-- A datagram of the dialer for the listener, and an acknowledgement the other way.
abbrev datagram : Fields
datagram = record { ref_num = 3000; seq_num = 1; ack_seq_num = 0; flag = 5; fsize = 2; crc = 9 }

abbrev acknowledgement : Fields
acknowledgement = record {
  ref_num = 2000;
  seq_num = 0;
  ack_seq_num = 1;
  flag = 4;
  fsize = 0;
  crc = 0;
}

datagram-InWidth : InWidth datagram
datagram-InWidth = record {
  ref_num_lt = omega arith;
  seq_num_lt = omega arith;
  ack_seq_num_lt = omega arith;
  flag_lt = omega arith;
  fsize_lt = omega arith;
  crc_lt = omega arith;
}

acknowledgement-InWidth : InWidth acknowledgement
acknowledgement-InWidth = record {
  ref_num_lt = omega arith;
  seq_num_lt = omega arith;
  ack_seq_num_lt = omega arith;
  flag_lt = omega arith;
  fsize_lt = omega arith;
  crc_lt = omega arith;
}

datagram_number : datagram.ref_num ≡ (exchange checksum dialer listener).dialer.ref1
unfolding exchange message read_handle write_handle on_accept on_connect_acknow on_accept_acknow
    on_open_acknow connect_hdp acknow_connect acknow_accept acknow_open verify_checksum1
datagram_number = refl

acknowledgement_number : acknowledgement.ref_num ≡ (exchange checksum dialer listener).listener.ref1
unfolding exchange message read_handle write_handle on_accept on_connect_acknow on_accept_acknow
    on_open_acknow connect_hdp acknow_connect acknow_accept acknow_open verify_checksum1
acknowledgement_number = refl
