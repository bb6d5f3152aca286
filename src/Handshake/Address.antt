-- ===== src/Handshake/Address.antt =====
-- transport.go: the address that acknowConnect writes after its header and onConnectAcknow reads,
-- and what else acknowConnect and acknowAccept do around their headers.
pub mod Sent
mod Tests
use aionet.Common.{
  ℕ, ◌%◌, Bool, true, false, if◌then◌else◌, List, [], ◌∷◌, ◌++◌, length, drop, replicate, u16,
  Option, none, some, is_some, Error, errorf, hdp, ◌⊎◌, inl, inr,
}
use aionet.Wire.{uint16_at, put_uint16}
use aionet.Transport.{Kernel, retry}
use aionet.Transport.Writer as Writer
use aionet.Transport.Writer.{Count, write}
use aionet.Handshake.{Endpoint, acknow_connect, acknow_accept}
use aionet.Handshake.Headers.{write_header}

-- The string, the error and the system after reading an address.
pub record Address (S : Type 0) : Type 0 where
  pub raddr : List ℕ
  pub err : Option Error
  pub after : S

-- A slice of n zero bytes with others at its start.
abbrev pub filled : ℕ → List ℕ → List ℕ
filled n bytes = bytes ++ drop (length bytes) (replicate n 0)

module _ {S : Type 0} (k : Kernel S) (waits : Writer.Kernel S) (fuel : ℕ) where
  -- The part of onConnectAcknow after its header: the error of the first read is lost.
  unfoldable pub read_address : S → Address S
  unfolding retry
  read_address s =
      let c = retry k.read fuel s 2 in
      let size = uint16_at (filled 2 c.bytes) 0 in
      let d = retry k.read fuel c.after size in
      record { raddr = filled size d.bytes; err = d.err; after = d.after }

  -- The part of acknowConnect after its header, for the text of the local address.
  unfoldable pub write_address : S → List ℕ → Option Error × S
  unfolding write
  write_address s laddr =
      let c = write waits fuel s (put_uint16 (replicate 2 0) 0 (u16 (length laddr))) in
      let d = write waits fuel c.after laddr in
      if is_some c.error then (c.error, c.after) else (d.error, d.after)

  module _ (crc16 : List ℕ → ℕ) (e : Endpoint) (s : S) where
    -- `acknowConnect`: whether the request has an address, what connect returned, and the local
    -- address.
    unfoldable pub acknow_connect_all : Bool → Option Error → List ℕ → Option Error × S
    unfolding write_header acknow_connect write_address
    acknow_connect_all defined connected laddr =
        let c = write_header k waits fuel s (acknow_connect crc16 e) true in
        let d = write_address c.after laddr in
        if defined
        then (if is_some connected
            then (some (hdp 5), s)
            else if is_some c.error
            then (c.error, c.after)
            else d)
        else (some (errorf "peer conn remote address is undefined" []), s)

    -- `acknowAccept`: what ResolveUDPAddr and connect returned.
    unfoldable pub acknow_accept_all : Option Error → Option Error → Option Error × S
    unfolding write_header acknow_accept
    acknow_accept_all resolved connected =
        let c = write_header k waits fuel s (acknow_accept crc16 e) false in
        if is_some resolved
        then (resolved, s)
        else if is_some connected
        then (some (hdp 5), s)
        else (c.error, c.after)
