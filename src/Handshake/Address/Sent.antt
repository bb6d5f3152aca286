-- ===== src/Handshake/Address/Sent.antt =====
-- transport.go: the address that one side writes is the one that the other reads.
use aionet.Common.{
  ℕ, suc, ◌≡◌, ◌≤◌, ◌<◌, ◌∙◌, ap, refl, arith, List, [], ◌∷◌, ◌++◌, length, replicate, u16,
  drop_all, length-replicate, append-nil, Option, none, some, Error, errno, eof,
}
use aionet.Wire.{uint16_at, put_uint16}
use aionet.Wire.RoundTrip.{join16}
use aionet.Transport.{Kernel, retry, eagain}
use aionet.Transport.Datagram.{retry-some}
use aionet.Transport.Writer as Writer
use aionet.Transport.Writer.{Count, write, settled}
use aionet.Handshake.Address.{filled, read_address, write_address}

-- Two connected sockets: what is written is one datagram, which the other side reads whole when its
-- slice is large enough, in the order of the writes. `flight` has the datagrams on their way.
pub record Network {S : Type 0} (k : Kernel S) (waits : Writer.Kernel S) : Type 0 where
  pub flight : S → List (List ℕ)
  pub sent : S → List ℕ → S
  pub taken : S → S
  pub sends : (s : S) (p : List ℕ) → waits.write s p ≡ (length p, none, sent s p)
  pub in_flight : (s : S) (p : List ℕ) → flight (sent s p) ≡ flight s ++ (p ∷ [])
  pub takes :
      (s : S) (n : ℕ) (p : List ℕ) (rest : List (List ℕ))
      → flight s ≡ p ∷ rest
      → length p ≤ n
      → k.read s n ≡ (p, none, taken s)
  pub leaves :
      (s : S) (p : List ℕ) (rest : List (List ℕ)) → flight s ≡ p ∷ rest → flight (taken s) ≡ rest

module _ {S : Type 0} (k : Kernel S) (waits : Writer.Kernel S) (net : Network k waits)
    (fuel : ℕ) where
  write-sends :
      (s : S) (p : List ℕ)
      → write waits (suc fuel) s p ≡ record { count = length p; error = none; after = net.sent s p }
  unfolding write settled
  write-sends s p = ground (arith, net.sends s p)

  retry-takes :
      (s : S) (n : ℕ) (p : List ℕ) (rest : List (List ℕ))
      → net.flight s ≡ p ∷ rest
      → 0 < length p
      → length p ≤ n
      → retry k.read (suc fuel) s n ≡ record { bytes = p; err = none; after = net.taken s }
  unfolding retry
  retry-takes s n p rest h pos fits =
      retry-some k.read fuel n s (net.taken s) p (net.takes s n p rest h fits) pos

  abbrev size_bytes : ℕ → List ℕ
  size_bytes n = put_uint16 (replicate 2 0) 0 (u16 n)

  size_read : (n : ℕ) → n < 65536 → uint16_at (filled 2 (size_bytes n)) 0 ≡ n
  size_read n h = let fits : (u16 n ≡ n) = omega (arith, h) in join16 (u16 n) (omega arith) ∙ fits

  filled_whole : (p : List ℕ) → filled (length p) p ≡ p
  filled_whole p =
      ap (λ l. p ++ l)
        (drop_all (replicate (length p) 0) (length p)
          (omega (arith, length-replicate {A = ℕ} (length p) 0)))
      ∙ append-nil p

  -- Both datagrams on their way, and the system after the first is read.
  abbrev both : S → List ℕ → S
  both s laddr = net.sent (net.sent s (size_bytes (length laddr))) laddr

  flight-both :
      (s : S) (laddr : List ℕ)
      → net.flight s ≡ []
      → net.flight (both s laddr) ≡ size_bytes (length laddr) ∷ laddr ∷ []
  flight-both s laddr e =
      net.in_flight (net.sent s (size_bytes (length laddr))) laddr
      ∙ ap (λ l. l ++ (laddr ∷ []))
          (net.in_flight s (size_bytes (length laddr))
            ∙ ap (λ l. l ++ (size_bytes (length laddr) ∷ [])) e)

  write_address-sends :
      (s : S) (laddr : List ℕ) → write_address k waits (suc fuel) s laddr ≡ (none, both s laddr)
  unfolding write_address
  write_address-sends s laddr =
      rw
        (
          write-sends s (size_bytes (length laddr)),
          write-sends (net.sent s (size_bytes (length laddr))) laddr,
        )
        refl

  -- When no datagram is on its way, writing a local address of 1 to 65535 bytes succeeds, and
  -- reading an address then gives exactly its bytes, without an error, and leaves nothing on the
  -- way.
  pub address_sent_is_read :
      (s : S) (laddr : List ℕ)
      → net.flight s ≡ []
      → 0 < length laddr
      → length laddr < 65536
      → (write_address k waits (suc fuel) s laddr ≡ (none, both s laddr))
        × (read_address k waits (suc fuel) (both s laddr)
            ≡ record { raddr = laddr; err = none; after = net.taken (net.taken (both s laddr)) })
        × (net.flight (net.taken (net.taken (both s laddr))) ≡ [])
  unfolding read_address
  address_sent_is_read s laddr e pos small =
      let two = flight-both s laddr e in
      let one = net.leaves (both s laddr) (size_bytes (length laddr)) (laddr ∷ []) two in
      let first =
        retry-takes (both s laddr) 2 (size_bytes (length laddr)) (laddr ∷ []) two (omega arith)
          (omega arith) in
      let second =
        retry-takes (net.taken (both s laddr)) (length laddr) laddr [] one pos (omega arith) in
      (
        write_address-sends s laddr,
        rw (first, size_read (length laddr) small, second)
            (ap
              (λ l. record { raddr = l; err = none; after = net.taken (net.taken (both s laddr)) })
              (filled_whole laddr)),
        net.leaves (net.taken (both s laddr)) laddr [] one,
      )

retry-fails :
    {S : Type 0} (call : S → ℕ → List ℕ × Option Error × S) (fuel n : ℕ) (s s1 : S)
    → call s n ≡ ([], some (errno eagain), s1)
    → retry call (suc fuel) s n ≡ record { bytes = []; err = some (errno eagain); after = s1 }
unfolding retry
retry-fails call fuel n s s1 e = ground (arith, e)

retry-empty :
    {S : Type 0} (call : S → ℕ → List ℕ × Option Error × S) (fuel n : ℕ) (s s1 : S)
    → call s n ≡ ([], none, s1)
    → retry call (suc fuel) s n ≡ record { bytes = []; err = some eof; after = s1 }
unfolding retry
retry-empty call fuel n s s1 e = ground (arith, e)

-- When the size is not there yet, so that its read fails with EAGAIN, reading an address takes the
-- size for zero and reports io.EOF for an empty address, where a read of no byte gives none: the
-- first error is lost.
pub size_error_is_lost :
    {S : Type 0} (k : Kernel S) (waits : Writer.Kernel S) (fuel : ℕ) (s s1 s2 : S)
    → k.read s 2 ≡ ([], some (errno eagain), s1)
    → k.read s1 0 ≡ ([], none, s2)
    → read_address k waits (suc fuel) s ≡ record { raddr = []; err = some eof; after = s2 }
unfolding read_address
size_error_is_lost k waits fuel s s1 s2 e f =
    rw (retry-fails k.read fuel 2 s s1 e, retry-empty k.read fuel 0 s1 s2 f) refl
