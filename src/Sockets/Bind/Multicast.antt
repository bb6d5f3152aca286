-- ===== src/Sockets/Bind/Multicast.antt =====
-- sock2.go, bind: the address that a socket is bound to.
use aionet.Common.{
  ℕ, ◌≡◌, ◌∙◌, refl, arith, ◌&&◌, Bool, true, false, if◌then◌else◌, List, [], replicate, none, some,
  is_some, errorf, ret, inl, inr, Bool-cases,
}
use aionet.Sockets.{
  Addr, udp, IpAddr, Sockaddr, inet4, octets, to4, ipv6_unspecified, sockaddr, sockaddr_to_udp,
  is_multicast, af_inet, af_inet6,
}
use aionet.Sockets.Addresses.{sockaddr_round_trip}
use aionet.Sockets.Options.{Socket, reuse_addr, set_default_multicast_sockopts}
use aionet.Sockets.Bind.{Calls, wildcard, local_addr, bind_local, bind}

-- The address that bind asks for: 0.0.0.0 in place of a multicast address.
abbrev pub wanted : IpAddr → List ℕ → Sockaddr
wanted a b = inet4 (if is_multicast (octets a.ip) then replicate 4 0 else b) a.port

-- A socket of a family, to be bound to a.
abbrev pub unbound : ℕ → ℕ → IpAddr → Addr → Socket
unbound fam fd a raddr = record { fd = fd; family = fam; laddr = udp (some a); raddr = raddr }

abbrev pub is_group : IpAddr → Bool
is_group a = is_some a.ip && is_multicast (octets a.ip)

module _ (calls : Calls) (fd : ℕ) (a : IpAddr) (raddr : Addr) where
  local_addr-single :
      (fam : ℕ)
      → is_group a ≡ false
      → local_addr calls (unbound fam fd a raddr) ≡ ret (inr (udp (some a)))
  unfolding local_addr
  local_addr-single fam m = rw (local_addr, m) refl

  local_addr-group :
      (fam : ℕ)
      → is_group a ≡ true
      → calls.set (reuse_addr fd) ≡ none
      → local_addr calls (unbound fam fd a raddr) ≡ ret (inr (udp (some (wildcard fam a))))
  unfolding local_addr set_default_multicast_sockopts
  local_addr-group fam m o = rw (local_addr, m, o) refl

  bind-local :
      (s : Socket) (a' : IpAddr) (b : List ℕ)
      → local_addr calls s ≡ ret (inr (udp (some a')))
      → to4 (octets a'.ip) ≡ some b
      → calls.bound (inet4 b a'.port) ≡ none
      → bind calls s ≡ ret (record s { laddr = sockaddr_to_udp calls.named }, calls.started)
  unfolding bind bind_local
  bind-local s a' b l e o = rw (l, (sockaddr_round_trip a' b e).0, o) refl

  group_is_some :
      (b : List ℕ) → to4 (octets a.ip) ≡ some b → is_group a ≡ is_multicast (octets a.ip)
  group_is_some b e = ground (arith, e)

  -- bind asks the system for 0.0.0.0 and the port when the IPv4 address of a UDP socket is a
  -- multicast address, once the address may be reused, and for the address itself otherwise; when
  -- the system accepts, the local address is the one that the system names, and the result the
  -- poller's answer.
  pub bind_lem :
      (b : List ℕ)
      → to4 (octets a.ip) ≡ some b
      → calls.set (reuse_addr fd) ≡ none
      → calls.bound (wanted a b) ≡ none
      → bind calls (unbound af_inet fd a raddr)
        ≡ ret (
          record (unbound af_inet fd a raddr) { laddr = sockaddr_to_udp calls.named },
          calls.started,
        )
  unfolding wildcard
  bind_lem b e o h = elim (Bool-cases (is_multicast (octets a.ip))) [
    | inl m ↦
        bind-local (unbound af_inet fd a raddr) (wildcard af_inet a) (replicate 4 0)
          (local_addr-group af_inet (group_is_some b e ∙ m) o) refl (rw m at h)
    | inr m ↦
        bind-local (unbound af_inet fd a raddr) a b
          (local_addr-single af_inet (group_is_some b e ∙ m)) e (rw m at h)
  ]

  -- A UDP socket of the family AF_INET6 is never bound to a multicast address: whatever the system
  -- answers, the address that replaces it has no socket address, and bind fails with that error.
  pub bind_ipv6_group_fails :
      is_group a ≡ true
      → calls.set (reuse_addr fd) ≡ none
      → bind calls (unbound af_inet6 fd a raddr)
        ≡ ret (
          unbound af_inet6 fd (record a { ip = some ipv6_unspecified }) raddr,
          some (errorf "invalid address family" []),
        )
  unfolding bind bind_local wildcard sockaddr
  bind_ipv6_group_fails m o = rw (local_addr-group af_inet6 m o) refl
