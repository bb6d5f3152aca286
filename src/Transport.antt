-- ===== src/Transport.antt =====
-- transport1.go, buffer.go, sock1.go: how hdpRead2 reads the body of a datagram into the user's
-- frame, and what it buffers of one that is larger. The system calls are a parameter. Connection
-- has the requests of conn.go, Writer the goroutine that answers those to write, Reader the one for
-- those to read.
pub mod Datagram
pub mod Connection
pub mod Writer
pub mod Reader
pub mod Acknowledgement
pub mod Journey
pub mod Errors
mod Tests
use aionet.Common.{
  ℕ, zero, suc, ◌+◌, ◌-◌, ltb, leb, ◌==◌, Bool, true, false, if◌then◌else◌, List, [], ◌∷◌, ◌++◌,
  length, take, drop, replicate, Option, none, some, is_some, Error, errno, errorf, eof,
}
use aionet.Buffers.Reader.{BufferR, add}

abbrev pub eintr : ℕ
eintr = 4

abbrev pub eagain : ℕ
eagain = 11

-- `unix.Read` and `unix.Recvfrom` with MSG_PEEK, into a number of bytes: the bytes, the error, and
-- what becomes of the system.
pub record Kernel (S : Type 0) : Type 0 where
  pub read : S → ℕ → List ℕ × Option Error × S
  pub peek : S → ℕ → List ℕ × Option Error × S

abbrev pub is_errno : ℕ → Option Error → Bool
is_errno k (some (errno j)) = j == k
is_errno k _ = false

-- A call has its results and the system after it; the bytes are those put at the start of the
-- slice.
pub record Call (S : Type 0) : Type 0 where
  pub bytes : List ℕ
  pub err : Option Error
  pub after : S

module _ {S : Type 0} where
  -- `socket.read` and `socket.readFrom` around one of the system calls; `fuel` bounds the calls
  -- that end with EINTR.
  unfoldable pub retry : (S → ℕ → List ℕ × Option Error × S) → ℕ → S → ℕ → Call S
  retry call zero s n = record { bytes = []; err = some (errno eintr); after = s }
  retry call (suc fuel) s n =
      let (bytes, err, s') = call s n in
      let again = retry call fuel s' n in
      if ltb 0 (length bytes)
      then record { bytes = bytes; err = err; after = s' }
      else if is_errno eintr err
      then again
      else if is_some err
      then record { bytes = []; err = err; after = s' }
      else record { bytes = []; err = some eof; after = s' }

  -- The loop of `BufferR.read1` with `n` bytes of the frame to read: `count` is that of the code,
  -- and `fuel` bounds the reads.
  unfoldable pub read1 : Kernel S → ℕ → ℕ → S → ℕ → Call S
  read1 k fuel count s zero = record { bytes = []; err = none; after = s }
  read1 k zero count s (suc n) = record { bytes = []; err = some eof; after = s }
  read1 k (suc fuel) count s (suc n) =
      let c = retry k.read (suc fuel) s (suc n) in
      let retried = read1 k fuel (count - 1) c.after (suc n - length c.bytes) in
      let rest = read1 k fuel count c.after (suc n - length c.bytes) in
      if is_errno eagain c.err
      then (if ltb 0 count
          then record { bytes = c.bytes ++ retried.bytes; err = retried.err; after = retried.after }
          else c)
      else if is_some c.err
      then c
      else record { bytes = c.bytes ++ rest.bytes; err = rest.err; after = rest.after }

-- `socket.verifyChecksum`.
unfoldable pub verify_checksum : (List ℕ → ℕ) → List ℕ → ℕ → Option Error
verify_checksum crc16 b crc =
    if crc == crc16 b then none else some (errorf "checksum verification failed" [])

-- What a read leaves: the bytes at the start of the user's frame, its results and the buffer.
pub record Body (S : Type 0) : Type 0 where
  pub frame : List ℕ
  pub count : ℕ
  pub err : Option Error
  pub buffer : BufferR
  pub after : S

module _ {S : Type 0} (crc16 : List ℕ → ℕ) where
  -- `BufferR.ReadFrom`: the result, the buffer and the system.
  unfoldable pub read_from :
      Kernel S → ℕ → S → BufferR → ℕ → ℕ → ℕ → (ℕ × Option Error) × BufferR × S
  read_from k fuel s b offset dsize crc =
      let c = read1 k fuel 1 s dsize in
      let b' = add b (drop offset c.bytes) in
      if is_some c.err
      then ((0, c.err), b, c.after)
      else if is_some (verify_checksum crc16 c.bytes crc)
      then ((0, verify_checksum crc16 c.bytes crc), b', c.after)
      else ((dsize, none), b', c.after)

  -- `read3` into the frame `f`: the error of ReadFrom is only logged.
  unfoldable pub read3 : Kernel S → ℕ → S → BufferR → List ℕ → ℕ → ℕ → Body S
  read3 k fuel s b f dsize crc =
      if leb dsize (length f)
      then (let c = retry k.read fuel s (length f) in
          let f' = c.bytes ++ drop (length c.bytes) f in
          record {
            frame = f';
            count = length c.bytes;
            err = if is_some c.err then c.err else verify_checksum crc16 (take dsize f') crc;
            buffer = b;
            after = c.after;
          })
      else (let c = retry k.peek fuel s (length f) in
          let f' = c.bytes ++ drop (length c.bytes) f in
          let (result, b', s') = read_from k fuel c.after b (length c.bytes) dsize crc in
          if is_some c.err
          then record {
            frame = f';
            count = length c.bytes;
            err = c.err;
            buffer = b;
            after = c.after;
          }
          else record { frame = f'; count = length c.bytes; err = c.err; buffer = b'; after = s' })
