-- ===== src/Handshake/Headers.antt =====
-- transport.go, readHeader and writeHeader: the loops that read a header into the whole of a slice
-- and write the whole of one.
pub mod Whole
mod Tests
use aionet.Common.{
  ℕ, zero, suc, ◌+◌, ◌-◌, ◌≡◌, ◌≢◌, ◌≤◌, ◌<◌, refl, arith, ltb, true, false, List, [], ◌∷◌, ◌++◌,
  length, drop, Bool, Option, none, some, is_some, Error, if◌then◌else◌, length-append, length-drop,
  Bool-cases, ◌⊎◌, inl, inr, eof, errno,
}
use aionet.Transport.{Kernel, Call, retry, is_errno, eintr}
use aionet.Transport.Writer as Writer
use aionet.Transport.Writer.{Count, write, settled, counted, is_interrupted}

module _ {S : Type 0} (k : Kernel S) (waits : Writer.Kernel S) (fuel : ℕ) where
  -- The loop of readHeader with n bytes left to read; `rounds` bounds the reads.
  unfoldable pub read_rest : ℕ → S → ℕ → Call S
  read_rest zero s n = record { bytes = []; err = none; after = s }
  read_rest (suc rounds) s zero = record { bytes = []; err = none; after = s }
  read_rest (suc rounds) s (suc n) =
      let c = retry k.read fuel s (suc n) in
      let rest = read_rest rounds c.after (suc n - length c.bytes) in
      if is_some c.err
      then c
      else record { bytes = c.bytes ++ rest.bytes; err = rest.err; after = rest.after }

  -- readHeader after it waited.
  unfoldable pub read_awake : ℕ → Option Error × S → Call S
  unfolding read_rest
  read_awake n (some e, s) = record { bytes = []; err = some e; after = s }
  read_awake n (none, s) = read_rest n s n

  -- `readHeader` into n bytes: each read gives a byte or an error.
  unfoldable pub read_header : S → ℕ → Call S
  unfolding read_awake
  read_header s n = read_awake n (waits.wait s 2)

  -- The loop of writeHeader over the bytes left to write; `rounds` bounds the writes.
  unfoldable pub write_rest : ℕ → S → List ℕ → Count S
  write_rest zero s p = record { count = 0; error = none; after = s }
  write_rest (suc rounds) s [] = record { count = 0; error = none; after = s }
  write_rest (suc rounds) s (b ∷ p) =
      let c = write waits fuel s (b ∷ p) in
      let rest = write_rest rounds c.after (drop c.count (b ∷ p)) in
      if is_some c.error
      then c
      else record { count = c.count + rest.count; error = rest.error; after = rest.after }

  unfoldable pub write_awake : List ℕ → Option Error × S → Count S
  unfolding write_rest
  write_awake p (some e, s) = record { count = 0; error = some e; after = s }
  write_awake p (none, s) = write_rest (length p) s p

  -- `writeHeader`, with its flag ioReady: whether it does not wait.
  unfoldable pub write_header : S → List ℕ → Bool → Count S
  unfolding write_awake
  write_header s p io_ready = write_awake p (if io_ready then (none, s) else waits.wait s 5)
