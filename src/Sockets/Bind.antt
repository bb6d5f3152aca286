-- ===== src/Sockets/Bind.antt =====
-- sock2.go: bind and bindToAddr. What the system calls return is given to each function.
pub mod Multicast
use aionet.Common.{
  ℕ, ◌≡◌, ◌==◌, ◌&&◌, Bool, true, false, if◌then◌else◌, List, [], ◌∷◌, Option, none, some, is_some,
  Error, syscall, hdp, Go, ret, panics, nil_dereference, ◌>>=◌, ◌⊎◌, inl, inr,
}
use aionet.Sockets.{
  Addr, no_addr, other_addr, tcp, udp, IpAddr, Sockaddr, octets, sockaddr, sockaddr_to_udp,
  is_multicast, ipv4_zero, ipv6_unspecified, af_inet, af_inet6,
}
use aionet.Sockets.Options.{Socket, SockOpt, set_default_multicast_sockopts}

-- unix.SetsockoptInt and unix.Bind, the address of unix.Getsockname, none after an error, and the
-- answer to init.
pub record Calls : Type 0 where
  pub set : SockOpt → Option Error
  pub bound : Sockaddr → Option Error
  pub named : Option Sockaddr
  pub started : Option Error

-- The wildcard address that replaces a multicast address.
unfoldable pub wildcard : ℕ → IpAddr → IpAddr
wildcard fam a =
    if fam == af_inet
    then record a { ip = some ipv4_zero }
    else if fam == af_inet6
    then record a { ip = some ipv6_unspecified }
    else a

-- The local address that bind uses, or its error.
unfoldable pub local_addr : Calls → Socket → Go (Error ⊎ Addr)
unfolding set_default_multicast_sockopts wildcard
local_addr calls s = elim s.laddr [
  | udp p ↦ elim p [
    | none ↦ panics nil_dereference
    | some a ↦
        if is_some a.ip && is_multicast (octets a.ip)
        then elim (set_default_multicast_sockopts calls.set s.fd).0 [
          | some e ↦ ret (inl e)
          | none ↦ ret (inr (udp (some (wildcard s.family a))))
        ]
        else ret (inr (udp (some a)))
  ]
  | tcp p ↦ ret (inr (tcp p))
  | no_addr ↦ ret (inr no_addr)
  | other_addr ↦ ret (inr other_addr)
]

-- The part of bind after the local address.
unfoldable pub bind_local : Calls → Socket → Go (Socket × Option Error)
unfolding sockaddr sockaddr_to_udp
bind_local calls s = sockaddr s.laddr >>= λ r. elim r [
  | inl e ↦ ret (s, some e)
  | inr lsa ↦ elim (calls.bound lsa) [
    | some e ↦ ret (s, some (syscall "bind" e))
    | none ↦ ret (record s { laddr = sockaddr_to_udp calls.named }, calls.started)
  ]
]

-- `bind`.
unfoldable pub bind : Calls → Socket → Go (Socket × Option Error)
unfolding local_addr bind_local
bind calls s = local_addr calls s >>= λ r. elim r [
  | inl e ↦ ret (s, some e)
  | inr laddr ↦ bind_local calls (record s { laddr = laddr })
]

-- `bindToAddr`.
unfoldable pub bind_to_addr : Calls → Addr → Socket → Go (Socket × Option Error)
unfolding sockaddr sockaddr_to_udp
bind_to_addr calls addr c = sockaddr addr >>= λ r. elim r [
  | inl e ↦ ret (c, some e)
  | inr sa ↦ elim (calls.bound sa) [
    | some e ↦ ret (c, some (hdp 25))
    | none ↦ ret (record c { laddr = sockaddr_to_udp calls.named }, none)
  ]
]
