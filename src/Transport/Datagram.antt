-- ===== src/Transport/Datagram.antt =====
-- transport1.go: a datagram is split between the user's frame and the buffer, without loss.
use aionet.Common.{
  take_all, take-append_self, append-nil, ℕ, zero, suc, ◌+◌, ◌-◌, ◌≤◌, ◌<◌, ◌≡◌, refl, ap, ◌∙◌,
  List, [], ◌∷◌, ◌++◌, length, take, drop, length-take, length-drop, ret, drop_all, Option, none,
  Error, arith,
}
use aionet.Buffers.Reader.{BufferR, Written, add, read}
use aionet.Buffers.Reader.Reads.{read_result, read_lem}
use aionet.Transport.{Kernel, retry, read1, verify_checksum, read_from, read3}

-- The next datagram of a socket is `d`: a peek gives its bytes and keeps it, a read gives them and
-- takes it off, and the bytes that do not fit are lost.
pub record NextIs {S : Type 0} (k : Kernel S) (s : S) (d : List ℕ) (s' : S) : Type 0 where
  pub reads : (n : ℕ) → k.read s n ≡ (take n d, none, s')
  pub peeks : (n : ℕ) → k.peek s n ≡ (take n d, none, s)

module _ {S : Type 0} where
  -- A call that gives at least one byte ends the loop over EINTR at once.
  pub retry-some :
      (call : S → ℕ → List ℕ × Option Error × S) (fuel n : ℕ) (s s' : S) (bytes : List ℕ)
      → call s n ≡ (bytes, none, s')
      → 0 < length bytes
      → retry call (suc fuel) s n ≡ record { bytes = bytes; err = none; after = s' }
  unfolding retry
  retry-some call fuel n s s' bytes e h = ground (arith, e, h)

  read1-done :
      (k : Kernel S) (fuel count : ℕ) (s : S) (n : ℕ)
      → n ≡ 0
      → read1 k fuel count s n ≡ record { bytes = []; err = none; after = s }
  unfolding read1
  read1-done k fuel count s zero e = refl
  read1-done k fuel count s (suc n) e = absurd (omega arith)

  read1-whole :
      (k : Kernel S) (fuel n : ℕ) (s s' : S) (d : List ℕ)
      → NextIs k s d s'
      → length d ≡ suc n
      → read1 k (suc fuel) 1 s (suc n) ≡ record { bytes = d; err = none; after = s' }
  unfolding read1
  read1-whole k fuel n s s' d v e =
      let whole : (take (suc n) d ≡ d) = take_all d (suc n) (omega (arith, e)) in
      ground (
        arith,
        retry-some k.read fuel (suc n) s s' d (v.reads (suc n) ∙ ap (λ x. (x, none, s')) whole)
            (omega (arith, e)),
        e,
        append-nil d,
        read1-done k fuel 1 s' (suc n - length d) (omega (arith, e)),
      )

module _ {S : Type 0} (crc16 : List ℕ → ℕ) where
  read_from-whole :
      (k : Kernel S) (fuel offset crc : ℕ) (s s' : S) (b : BufferR) (d : List ℕ)
      → NextIs k s d s'
      → 0 < length d
      → ((read_from crc16 k (suc fuel) s b offset (length d) crc).1 ≡ add b (drop offset d))
        × ((read_from crc16 k (suc fuel) s b offset (length d) crc).2 ≡ s')
  unfolding read_from
  read_from-whole k fuel offset crc s s' b [] v p = elim p [ ]
  read_from-whole k fuel offset crc s s' b (x ∷ xs) v p =
      let e = read1-whole k fuel (length xs) s s' (x ∷ xs) v refl in
      (ground (arith, e), ground (arith, e))

  -- When the next datagram of the socket has at least one byte and as many as its header says, and
  -- the user's frame has at least one byte: a datagram that fits the frame is put at its start, and
  -- its checksum decides the error. Of a larger one the frame takes as many bytes as it has room
  -- for, the buffer gets exactly the rest, and there is no error whether the checksum holds or not.
  pub datagram_split :
      (k : Kernel S) (fuel crc : ℕ) (s s' : S) (b : BufferR) (f d : List ℕ)
      → NextIs k s d s'
      → 0 < length d
      → 0 < length f
      → (length d ≤ length f
          → read3 crc16 k (suc fuel) s b f (length d) crc ≡ record {
            frame = d ++ drop (length d) f;
            count = length d;
            err = verify_checksum crc16 d crc;
            buffer = b;
            after = s';
          })
        × (length f < length d
            → read3 crc16 k (suc fuel) s b f (length d) crc ≡ record {
              frame = take (length f) d;
              count = length f;
              err = none;
              buffer = add b (drop (length f) d);
              after = s';
            })
  unfolding read3
  datagram_split k fuel crc s s' b f d v p q = (
    λ h. ground (
      arith,
      retry-some k.read fuel (length f) s s' d
          (v.reads (length f) ∙ ap (λ x. (x, none, s')) (take_all d (length f) h)) p,
      take-append_self d (drop (length d) f),
    ),
    λ h. ground (
      arith,
      retry-some k.peek fuel (length f) s s (take (length f) d) (v.peeks (length f))
          (omega (arith, length-take (length f) d)),
      length-take (length f) d,
      read_from-whole k fuel (length (take (length f) d)) crc s s' b d v p,
      drop_all f (length (take (length f) d)) (omega (arith, length-take (length f) d)),
      append-nil (take (length f) d),
    ),
  )

  -- After a datagram larger than the user's frame, which is not empty, is read at an empty buffer,
  -- a Read of `n` bytes returns the bytes of the datagram that follow those in the frame, `n` of
  -- them or all that are left.
  pub datagram_read_back :
      (k : Kernel S) (fuel crc n : ℕ) (s s' : S) (b : BufferR) (f d : List ℕ)
      → NextIs k s d s'
      → 0 < length f
      → length f < length d
      → b.this ≡ []
      → (w : Written) × (read (read3 crc16 k (suc fuel) s b f (length d) crc).buffer n ≡ ret w)
        × (w.bytes ≡ take n (drop (length f) d))
  unfolding add
  datagram_read_back k fuel crc n s s' b f d v q h e =
      let rest = drop (length f) d in
      let pos : (0 < length rest) = omega (arith, length-drop (length f) d) in
      let b' : BufferR = record {
        this = rest ∷ [];
        size0 = b.size0 + length rest;
        size1 = b.size1;
      } in
      let split = datagram_split k fuel crc s s' b f d v (omega arith) q in
      let buffered : ((read3 crc16 k (suc fuel) s b f (length d) crc).buffer ≡ b') =
        ap (λ x. x.buffer) (split.1 h)
        ∙ ap
            (λ x. record {
              this = x ++ (rest ∷ []);
              size0 = b.size0 + length rest;
              size1 = b.size1;
            })
            e in
      (
        read_result b' n,
        ap (λ x. read x n) buffered ∙ read_lem b' n (pos, tt),
        ap (take n) (append-nil rest),
      )
