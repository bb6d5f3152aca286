-- ===== src/Sockets/Io/Replies.antt =====
-- sock1.go: an answer that is written to the address of a datagram.
use aionet.Common.{
  ℕ, zero, suc, ◌<◌, ◌≡◌, ap, refl, arith, List, ◌∷◌, length, Option, none, some, Error, ret,
}
use aionet.Sockets.{Addr, udp, IpAddr, Sockaddr, inet4, sockaddr_to_udp}
use aionet.Sockets.Addresses.{to4_self, sockaddr_round_trip}
use aionet.Sockets.Io.{
  Datagrams, loop, recv_round, read_from, on_read_from, send_round, write_to, on_write_to,
}

module _ {S R : Type 0} (body : S → Option R × S) where
  -- The system after k rounds, and k rounds of a loop that all continue.
  abbrev pub after : ℕ → S → S
  after zero s = s
  after (suc k) s = after k (body s).1

  abbrev pub Continues : ℕ → S → Type 0
  Continues zero s = Unit
  Continues (suc k) s = ((body s).0 ≡ none) × Continues k (body s).1

  loop_lem :
      (k fuel : ℕ) (s s1 : S) (r : R)
      → k < fuel
      → Continues k s
      → body (after k s) ≡ (some r, s1)
      → loop fuel body s ≡ some (r, s1)
  unfolding loop
  loop_lem k zero s s1 r f h e = elim f [ ]
  loop_lem zero (suc fuel) s s1 r f h e =
      ap (λ x. elim x.0 [ none ↦ loop fuel body x.1 | some y ↦ some (y, x.1) ]) e
  loop_lem (suc k) (suc fuel) s s1 r f h e =
      rw (loop, h.0) (loop_lem k fuel (body s).1 s1 r (omega arith) h.1 e)

module _ {S : Type 0} (d : Datagrams S) where
  recv_round-bytes :
      (n : ℕ) (s s1 : S) (x : ℕ) (bytes : List ℕ) (sa : Option Sockaddr) (err : Option Error)
      → d.recvfrom s n ≡ (x ∷ bytes, sa, err, s1)
      → recv_round d n s ≡ (some (x ∷ bytes, sockaddr_to_udp sa, err), s1)
  unfolding recv_round
  recv_round-bytes n s s1 x bytes sa err h = ground (arith, h)

  send_round-sent :
      (p : List ℕ) (sa : Sockaddr) (s s1 : S)
      → d.sendto s p sa ≡ (none, s1)
      → send_round d p sa s ≡ (some (length p, none), s1)
  unfolding send_round
  send_round-sent p sa s s1 h = ground (arith, h)

  -- A datagram that comes from an IPv4 address after k interrupted reads, and an answer that is
  -- written to the address that readFrom returns: after j interrupted writes, Sendto gets the whole
  -- answer for the sender of the datagram, and writeTo returns its length.
  pub reply_reaches_sender :
      (k j fuel n : ℕ) (s s1 s2 : S) (x : ℕ) (bytes b : List ℕ) (port : ℕ) (err : Option Error)
      (p : List ℕ)
      → k < fuel
      → j < fuel
      → length b ≡ 4
      → Continues (recv_round d n) k s
      → d.recvfrom (after (recv_round d n) k s) n ≡ (x ∷ bytes, some (inet4 b port), err, s1)
      → Continues (send_round d p (inet4 b port)) j s1
      → d.sendto (after (send_round d p (inet4 b port)) j s1) p (inet4 b port) ≡ (none, s2)
      → (addr : Addr) × (on_read_from none d fuel s n ≡ some ((x ∷ bytes, addr, err), s1))
        × (on_write_to none d fuel s1 p addr ≡ ret (some ((length p, none), s2)))
  unfolding on_read_from read_from on_write_to write_to sockaddr_to_udp
  reply_reaches_sender k j fuel n s s1 s2 x bytes b port err p hk hj four hr er hs es =
      let sent =
        loop_lem (send_round d p (inet4 b port)) j fuel s1 s2 (length p, none) hj hs
          (send_round-sent p (inet4 b port) _ s2 es) in
      let own : IpAddr = record { ip = some b; port = port } in
      (
        udp (some own),
        loop_lem (recv_round d n) k fuel s s1 (x ∷ bytes, udp (some own), err) hk hr
            (recv_round-bytes n _ s1 x bytes (some (inet4 b port)) err er),
        rw ((sockaddr_round_trip own b (to4_self b four)).0, sent) refl,
      )
