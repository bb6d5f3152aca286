-- ===== src/Sockets/Io.antt =====
-- sock1.go: datagrams with an address, which are read by readFrom and onReadFrom and written by
-- writeTo and onWriteTo.
pub mod Replies
use aionet.Common.{
  ℕ, zero, suc, ◌≡◌, ltb, Bool, true, false, if◌then◌else◌, List, [], ◌∷◌, length, Option, none,
  some, is_some, Error, errorf, eof, Go, ret, ◌>>=◌, ◌⊎◌, inl, inr,
}
use aionet.Transport.{eintr, is_errno}
use aionet.Sockets.{Addr, no_addr, Sockaddr, sockaddr, sockaddr_to_udp}

-- `unix.Recvfrom` into a number of bytes, and `unix.Sendto`, with what becomes of the system.
pub record Datagrams (S : Type 0) : Type 0 where
  pub recvfrom : S → ℕ → List ℕ × Option Sockaddr × Option Error × S
  pub sendto : S → List ℕ → Sockaddr → Option Error × S

module _ {S : Type 0} where
  -- A `for` loop whose body continues or returns; `fuel` bounds its rounds.
  unfoldable pub loop : {R : Type 0} → ℕ → (S → Option R × S) → S → Option (R × S)
  loop zero body s = none
  loop (suc fuel) body s =
      let (r, s1) = body s in
      let again = loop fuel body s1 in elim r [ none ↦ again | some x ↦ some (x, s1) ]

  -- A round of the loop of readFrom.
  unfoldable pub recv_round : Datagrams S → ℕ → S → Option (List ℕ × Addr × Option Error) × S
  unfolding sockaddr_to_udp
  recv_round d n s =
      let (bytes, sa, err, s1) = d.recvfrom s n in
      if ltb 0 (length bytes)
      then (some (bytes, sockaddr_to_udp sa, err), s1)
      else if is_errno eintr err
      then (none, s1)
      else (some ([], sockaddr_to_udp sa, if is_some err then err else some eof), s1)

  -- `readFrom`, of a slice of n bytes.
  unfoldable pub read_from : Datagrams S → ℕ → S → ℕ → Option ((List ℕ × Addr × Option Error) × S)
  unfolding loop recv_round
  read_from d fuel s n = loop fuel (recv_round d n) s

  -- `onReadFrom`, with the answer to its request to the poller.
  unfoldable pub on_read_from :
      Option Error → Datagrams S → ℕ → S → ℕ → Option ((List ℕ × Addr × Option Error) × S)
  unfolding read_from
  on_read_from none d fuel s n = read_from d fuel s n
  on_read_from (some e) d fuel s n = some (([], no_addr, some e), s)

  -- A round of the loop of writeTo.
  unfoldable pub send_round : Datagrams S → List ℕ → Sockaddr → S → Option (ℕ × Option Error) × S
  send_round d p sa s =
      let (err, s1) = d.sendto s p sa in
      if is_errno eintr err
      then (none, s1)
      else if is_some err
      then (some (0, err), s1)
      else (some (length p, none), s1)

  -- `writeTo`.
  unfoldable pub write_to :
      Datagrams S → ℕ → S → List ℕ → Addr → Go (Option ((ℕ × Option Error) × S))
  unfolding loop send_round sockaddr
  write_to d fuel s p addr = sockaddr addr >>= λ r. elim r [
    | inl e ↦ ret (some ((0, some e), s))
    | inr sa ↦ ret (loop fuel (send_round d p sa) s)
  ]

  -- `onWriteTo`, with the answer to its request to the poller.
  unfoldable pub on_write_to :
      Option Error → Datagrams S → ℕ → S → List ℕ → Addr → Go (Option ((ℕ × Option Error) × S))
  unfolding write_to
  on_write_to answer d fuel s p no_addr = ret (some ((0, some (errorf "addr is nil" [])), s))
  on_write_to (some e) d fuel s p addr = ret (some ((0, some e), s))
  on_write_to none d fuel s p addr = write_to d fuel s p addr
