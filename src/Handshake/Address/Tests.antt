-- ===== src/Handshake/Address/Tests.antt =====
-- transport.go: an address over a network that keeps datagrams in a list.
use aionet.Common.{
  ℕ, suc, ◌≡◌, ◌<◌, refl, arith, List, [], ◌∷◌, ◌++◌, length, Option, none, some, Error, errno, eof,
  if◌then◌else◌, leb, take, take_all,
}
use aionet.Transport.{Kernel, eagain}
use aionet.Transport.Writer as Writer
use aionet.Handshake.Address.{read_address, write_address}
use aionet.Handshake.Address.Sent.{Network, address_sent_is_read, size_error_is_lost}

-- A read gives the first datagram, as far as it fits, and EAGAIN when there is none and a byte is
-- wanted.
abbrev pop : List (List ℕ) → ℕ → List ℕ × Option Error × List (List ℕ)
pop [] n = ([], if leb n 0 then none else some (errno eagain), [])
pop (p ∷ s) n = (take n p, none, s)

abbrev reads : Kernel (List (List ℕ))
reads = record { read = pop; peek = pop }

abbrev writes : Writer.Kernel (List (List ℕ))
writes = record {
  write = λ s p. (length p, none, s ++ (p ∷ []));
  wait = λ s m. (none, s);
  deadline = λ s m v. (none, s);
}

abbrev rest_of : List (List ℕ) → List (List ℕ)
rest_of [] = []
rest_of (p ∷ s) = s

pop-takes :
    (s : List (List ℕ)) (n : ℕ) (p : List ℕ) (rest : List (List ℕ))
    → s ≡ p ∷ rest
    → length p < suc n
    → pop s n ≡ (p, none, rest_of s)
pop-takes s n p rest e h = rw (e, take_all p n (omega arith)) refl

network : Network reads writes
network = record {
  flight = λ s. s;
  sent = λ s p. s ++ (p ∷ []);
  taken = rest_of;
  sends = λ s p. refl;
  in_flight = λ s p. refl;
  takes = λ s n p rest e h. pop-takes s n p rest e (omega arith);
  leaves = λ s p rest e. rw e refl;
}

address_sent_is_read_example :
    (write_address reads writes 1 [] (49 ∷ 58 ∷ 50 ∷ [])
      ≡ (none, (3 ∷ 0 ∷ []) ∷ (49 ∷ 58 ∷ 50 ∷ []) ∷ []))
    × (read_address reads writes 1 ((3 ∷ 0 ∷ []) ∷ (49 ∷ 58 ∷ 50 ∷ []) ∷ [])
        ≡ record { raddr = 49 ∷ 58 ∷ 50 ∷ []; err = none; after = [] })
    × (network.flight [] ≡ [])
unfolding network
address_sent_is_read_example =
    address_sent_is_read reads writes network 0 [] (49 ∷ 58 ∷ 50 ∷ []) refl (omega arith)
      (omega arith)

size_error_is_lost_example :
    read_address reads writes 1 [] ≡ record { raddr = []; err = some eof; after = [] }
size_error_is_lost_example = size_error_is_lost reads writes 0 [] [] [] refl refl
