-- ===== src/Sockets/Options.antt =====
-- sock.go and base.go: the creation of a socket and its options.
use aionet.Common.{
  ℕ, ◌==◌, not, Bool, ◌&&◌, ◌||◌, if◌then◌else◌, List, [], ◌∷◌, ◌++◌, Option, none, some, Error,
  syscall, ◌⊎◌, inl, inr,
}
use aionet.Sockets.{
  Addr, udp, IpAddr, af_unix, af_inet, af_inet6, sock_dgram, sock_raw, boolint, syscall_error,
  favorite_addr_family,
}

-- A call of `unix.SetsockoptInt` on a descriptor.
pub record SockOpt : Type 0 where
  pub fd : ℕ
  pub level : ℕ
  pub name : ℕ
  pub value : ℕ

-- IPPROTO_IPV6 with IPV6_V6ONLY, and SOL_SOCKET with SO_BROADCAST and with SO_REUSEADDR.
abbrev pub v6_only : ℕ → Bool → SockOpt
v6_only fd b = record { fd = fd; level = 41; name = 26; value = boolint b }

abbrev pub broadcast : ℕ → SockOpt
broadcast fd = record { fd = fd; level = 1; name = 6; value = 1 }

abbrev pub reuse_addr : ℕ → SockOpt
reuse_addr fd = record { fd = fd; level = 1; name = 2; value = 1 }

-- The `socket` of sock1.go.
pub record Socket : Type 0 where
  pub fd : ℕ
  pub family : ℕ
  pub laddr : Addr
  pub raddr : Addr

-- `set` is what unix.SetsockoptInt returns, and the second result has the calls in their order.
module _ (set : SockOpt → Option Error) where
  abbrev broadcasts : ℕ → ℕ → Bool
  broadcasts fam sotype = ((sotype == sock_dgram) || (sotype == sock_raw)) && not (fam == af_unix)

  -- `setDefaultSockopts`: the error of IPV6_V6ONLY is lost when the socket also gets SO_BROADCAST.
  unfoldable pub set_default_sockopts : ℕ → ℕ → ℕ → Bool → Option Error × List SockOpt
  set_default_sockopts fd fam sotype ipv6only =
      let is6 = (fam == af_inet6) && not (sotype == sock_raw) in
      let asked = if is6 then v6_only fd ipv6only ∷ [] else [] in
      if broadcasts fam sotype
      then (syscall_error "setsockopt" (set (broadcast fd)), asked ++ (broadcast fd ∷ []))
      else ((if is6 then set (v6_only fd ipv6only) else none), asked)

  -- `setDefaultListenerSockopts` and `setDefaultMulticastSockopts`, which are the same.
  unfoldable pub set_default_listener_sockopts : ℕ → Option Error × List SockOpt
  set_default_listener_sockopts fd =
      (syscall_error "setsockopt" (set (reuse_addr fd)), reuse_addr fd ∷ [])

  unfoldable pub set_default_multicast_sockopts : ℕ → Option Error × List SockOpt
  set_default_multicast_sockopts fd =
      (syscall_error "setsockopt" (set (reuse_addr fd)), reuse_addr fd ∷ [])

  -- `newSocketFd`, by what unix.Socket returns for the family and the type; none is the descriptor
  -- -1.
  unfoldable pub new_socket_fd :
      (ℕ → ℕ → Error ⊎ ℕ) → ℕ → ℕ → Bool → Option ℕ × Option Error × List SockOpt
  unfolding set_default_sockopts
  new_socket_fd created fam sotype ipv6only = elim (created fam sotype) [
    | inl e ↦ (none, syscall_error "socket" (some e), [])
    | inr fd ↦
        (let (err, asked) = set_default_sockopts fd fam sotype ipv6only in (some fd, err, asked))
  ]

  -- `newSocket0`, whose network is always "udp"; a local address that is nil is passed on as a
  -- sockAddr that holds a nil pointer. An error of the options comes with the socket.
  unfoldable pub new_socket0 :
      (ℕ → ℕ → Error ⊎ ℕ)
      → Bool
      → ℕ
      → Option IpAddr
      → Option IpAddr
      → Option Socket × Option Error × List SockOpt
  unfolding set_default_sockopts favorite_addr_family
  new_socket0 created listening sotype laddr raddr =
      let (fam, ipv6only) = favorite_addr_family 112 (some (udp laddr)) none listening in
      elim (created fam sotype) [
        | inl e ↦ (none, syscall_error "socket" (some e), [])
        | inr fd ↦
            (let (err, asked) = set_default_sockopts fd fam sotype ipv6only in
              (
                some (record { fd = fd; family = fam; laddr = udp laddr; raddr = udp raddr }),
                err,
                asked,
              ))
      ]

-- `newSocket`.
unfoldable pub new_socket : (ℕ → ℕ → Error ⊎ ℕ) → Option IpAddr → Option IpAddr → Error ⊎ Socket
new_socket created laddr raddr = elim (created af_inet sock_dgram) [
  | inl e ↦ inl (syscall "socket" e)
  | inr fd ↦ inr (record { fd = fd; family = af_inet; laddr = udp laddr; raddr = udp raddr })
]
