-- ===== src/Handshake.antt =====
-- transport.go: the four headers with which a dialer and a listener open a connection, and what
-- each side makes of them. The system calls are arguments: what a read gave, and whether a
-- connection was made. `crc16` stands for crc16.Checksum with the IBM table.
pub mod Messages
pub mod Agreement
pub mod Headers
pub mod Open
pub mod Address
pub mod Start
mod Tests
use aionet.Common.{
  ℕ, ◌+◌, ◌%◌, ◌==◌, ◌&&◌, not, ltb, Bool, if◌then◌else◌, List, [], ◌∷◌, length, set, replicate,
  Option, none, some, Error, hdp, errorf, eof,
}
use aionet.Dtype.{
  hdp_accept, hdp_open1, hdp_connect, hdp_connect_ack, hdp_accept_ack, hdp_connected,
}
use aionet.Wire.{put_uint16, uint16_at, byte_at, verify_checksum1}

-- The session numbers that the reader and the writer of one side share, its own and its peer's, and
-- the window size in the socket1 of each, which is a copy.
pub record Endpoint : Type 0 where
  pub ref0 : ℕ
  pub ref1 : ℕ
  pub read_window : ℕ
  pub write_window : ℕ

-- `getRefNum` at a time with this many nanoseconds.
unfoldable pub get_ref_num : ℕ → ℕ
get_ref_num nanosecond = let id = nanosecond % 65536 in if ltb id 1000 then 1000 + id else id

-- A side as HdpDialer.start and HdpListener.start make it.
unfoldable pub new_endpoint : ℕ → Endpoint
unfolding get_ref_num
new_endpoint nanosecond = record {
  ref0 = get_ref_num nanosecond;
  ref1 = 0;
  read_window = 16;
  write_window = 16;
}

-- What reading 18 bytes gave.
pub data Received : Type 0 where
  failed : Error → Received
  header : List ℕ → Received

-- How newAcceptConn went: newSocket failed, init failed, or neither.
pub data NewConn : Type 0 where
  no_socket : Error → NewConn
  no_init : Error → NewConn
  opened : NewConn

abbrev pub zeros : List ℕ
zeros = replicate 18 0

abbrev pub refuse : Endpoint → ℕ → Endpoint × Option Error
refuse e code = (e, some (hdp code))

-- The test `c.refNum[0] != 0 && c.refNum[0] != refNum`.
abbrev pub is_stranger : Endpoint → ℕ → Bool
is_stranger e ref_num = not (e.ref0 == 0) && not (e.ref0 == ref_num)

module _ (crc16 : List ℕ → ℕ) where
  abbrev pub checksummed : List ℕ → List ℕ
  checksummed b = put_uint16 b 16 (crc16 b)

  -- The header of `connectHdp`.
  unfoldable pub connect_hdp : List ℕ
  connect_hdp = checksummed (set zeros 10 hdp_connect)

  -- The header of `acknowConnect`.
  unfoldable pub acknow_connect : Endpoint → List ℕ
  acknow_connect e =
      checksummed
        (put_uint16 (set (put_uint16 zeros 0 e.ref0) 10 hdp_connect_ack) 12 e.write_window)

  -- The header of `acknowAccept`.
  unfoldable pub acknow_accept : Endpoint → List ℕ
  acknow_accept e = checksummed (
      put_uint16 (set (put_uint16 (put_uint16 zeros 0 e.ref1) 2 e.ref0) 10 hdp_accept_ack) 12
        e.write_window)

  -- The header of `acknowOpen`.
  unfoldable pub acknow_open : Endpoint → List ℕ
  acknow_open e = checksummed (set (put_uint16 zeros 0 e.ref1) 10 hdp_connected)

  -- The header of `write1`, from the 18 bytes of the request, or new ones when it has none.
  unfoldable pub write1 : Endpoint → List ℕ → ℕ → List ℕ
  write1 e bytes flag =
      let hdr = if length bytes == 0 then zeros else bytes in
      checksummed (set (put_uint16 hdr 0 e.ref1) 10 (flag % 256))

  -- `onAccept`, with `newAcceptConn`.
  unfoldable pub on_accept : Endpoint → Received → NewConn → Endpoint × Option Error
  on_accept e (failed err) conn = refuse e 2
  on_accept e (header b) conn =
      let e' : Endpoint = record e { read_window = 16; write_window = 16 } in
      let checked = verify_checksum1 crc16 b in
      elim conn [
        | no_socket err ↦ (e, some err)
        | no_init err ↦ (e', some err)
        | opened ↦
            if not (checked.0)
            then refuse e' 3
            else if not (byte_at (checked.1) 10 == hdp_connect)
            then refuse e' 4
            else (e', none)
      ]

  -- `onConnect`; `connected` is the error of connecting to the sender.
  unfoldable pub on_connect : Endpoint → Received → Option Error → Endpoint × Option Error
  on_connect e (failed err) connected = refuse e 2
  on_connect e (header b) connected =
      let checked = verify_checksum1 crc16 b in
      if not (checked.0)
      then refuse e 3
      else if not (byte_at (checked.1) 10 == hdp_connect)
      then refuse e 4
      else elim connected [ none ↦ (e, none) | some err ↦ refuse e 5 ]

  -- `onConnectAcknow`; `address` is the error of reading the peer's address after the header.
  unfoldable pub on_connect_acknow : Endpoint → Received → Option Error → Endpoint × Option Error
  on_connect_acknow e (failed err) address = (e, some err)
  on_connect_acknow e (header b) address =
      let checked = verify_checksum1 crc16 b in
      if not (checked.0)
      then refuse e 3
      else if not (byte_at (checked.1) 10 == hdp_connect_ack)
      then refuse e 4
      else (
        record e { ref1 = uint16_at (checked.1) 0; read_window = uint16_at (checked.1) 12 },
        address,
      )

  -- `onAcceptAcknow`, which takes the peer's number before it tests its own.
  unfoldable pub on_accept_acknow : Endpoint → Received → Endpoint × Option Error
  on_accept_acknow e (failed err) = (e, some err)
  on_accept_acknow e (header b) =
      let checked = verify_checksum1 crc16 b in
      let e' : Endpoint = record e { ref1 = uint16_at (checked.1) 2 } in
      if not (checked.0)
      then refuse e 3
      else if is_stranger e (uint16_at (checked.1) 0)
      then refuse e' 1
      else if not (byte_at (checked.1) 10 == hdp_accept_ack)
      then refuse e' 4
      else (record e' { read_window = uint16_at (checked.1) 12 }, none)

  -- `onOpenAcknow`.
  unfoldable pub on_open_acknow : Endpoint → Received → Endpoint × Option Error
  on_open_acknow e (failed err) = (e, some err)
  on_open_acknow e (header b) =
      let checked = verify_checksum1 crc16 b in
      if not (checked.0)
      then refuse e 3
      else if is_stranger e (uint16_at (checked.1) 0)
      then refuse e 1
      else if not (byte_at (checked.1) 10 == hdp_connected)
      then refuse e 4
      else (e, none)

  -- `hdpRead1.handle`: the state and the error of the response.
  unfoldable pub read_handle :
      ℕ → Endpoint → Received → NewConn → Option Error → Option Error → Endpoint × Option Error
  unfolding on_accept on_connect on_connect_acknow on_accept_acknow on_open_acknow
  read_handle flag e r conn connected address =
      if flag == hdp_accept
      then on_accept e r conn
      else if flag == hdp_connect
      then on_connect e r connected
      else if flag == hdp_connect_ack
      then on_connect_acknow e r address
      else if flag == hdp_accept_ack
      then on_accept_acknow e r
      else if flag == hdp_connected
      then on_open_acknow e r
      else if flag == hdp_open1
      then (e, none)
      else (e, some (errorf "unknown flag : %s" (flag ∷ [])))

  -- `hdpWrite1.handle`: the header that it writes when no system call fails, if it writes one.
  unfoldable pub write_handle : ℕ → Endpoint → List ℕ → Option (List ℕ)
  unfolding acknow_connect acknow_accept acknow_open connect_hdp write1
  write_handle flag e bytes =
      if flag == hdp_connect_ack
      then some (acknow_connect e)
      else if flag == hdp_accept_ack
      then some (acknow_accept e)
      else if flag == hdp_connected
      then some (acknow_open e)
      else if flag == hdp_connect
      then some connect_hdp
      else if flag == hdp_open1
      then none
      else some (write1 e bytes flag)

  -- What the peer reads of a header written.
  abbrev pub received : Option (List ℕ) → Received
  received none = failed eof
  received (some b) = header b

  -- One message: `HdpDialer.Dial` and `HdpListener.onAccept` send a writer the flag `w` and then a
  -- reader of the other side the flag `r`. No system call fails.
  unfoldable pub message : ℕ → Endpoint → ℕ → Endpoint → Endpoint × Option Error
  unfolding read_handle write_handle
  message w sender r reader =
      read_handle r reader (received (write_handle w sender [])) opened none none
