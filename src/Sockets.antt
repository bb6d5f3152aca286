-- ===== src/Sockets.antt =====
-- sock.go: addresses, their conversion to and from those of the system, and the options of a new
-- socket. The system calls are parameters; families, types and error numbers have their values on
-- Linux.
pub mod Addresses
pub mod Io
pub mod Options
pub mod Connect
pub mod Bind
mod Tests
use Prim.Native.Nat.{bit_and}
use Prim.Native.String.{String}
use aionet.Common.{
  ℕ, ◌≡◌, ◌==◌, leb, Bool, true, false, not, ◌&&◌, ◌||◌, if◌then◌else◌, List, [], ◌∷◌, ◌++◌, length,
  take, drop, replicate, Option, none, some, is_some, Error, errorf, errno, syscall, Go, ret,
  panics, nil_dereference, ◌>>=◌, ◌⊎◌, inl, inr,
}

abbrev pub af_unix : ℕ
af_unix = 1

abbrev pub af_inet : ℕ
af_inet = 2

abbrev pub af_inet6 : ℕ
af_inet6 = 10

abbrev pub sock_dgram : ℕ
sock_dgram = 2

abbrev pub sock_raw : ℕ
sock_raw = 3

-- A TCPAddr or UDPAddr without its zone, which the code never reads; the slice of the IP may be
-- nil.
pub record IpAddr : Type 0 where
  pub ip : Option (List ℕ)
  pub port : ℕ

-- A `net.Addr`: a nil interface, a pointer that may be nil, or an address of another type.
pub data Addr : Type 0 where
  no_addr other_addr : Addr
  tcp udp : Option IpAddr → Addr

-- A `unix.Sockaddr`, where none is nil.
pub data Sockaddr : Type 0 where
  inet4 inet6 : List ℕ → ℕ → Sockaddr
  other_sockaddr : Sockaddr

abbrev pub octets : Option (List ℕ) → List ℕ
octets none = []
octets (some b) = b

abbrev pub all_zero : List ℕ → Bool
all_zero [] = true
all_zero (b ∷ bs) = (b == 0) && all_zero bs

-- The first twelve bytes of an IPv4 address that is mapped into IPv6.
abbrev pub is_mapped : List ℕ → Bool
is_mapped (b0 ∷ b1 ∷ b2 ∷ b3 ∷ b4 ∷ b5 ∷ b6 ∷ b7 ∷ b8 ∷ b9 ∷ b10 ∷ b11 ∷ r) =
    all_zero (b0 ∷ b1 ∷ b2 ∷ b3 ∷ b4 ∷ b5 ∷ b6 ∷ b7 ∷ b8 ∷ b9 ∷ []) && (b10 == 255) && (b11 == 255)
is_mapped bs = false

-- `IP.To4` of Go's net package, none for nil.
abbrev pub to4 : List ℕ → Option (List ℕ)
to4 ip =
    if length ip == 4
    then some ip
    else if (length ip == 16) && is_mapped ip
    then some (drop 12 ip)
    else none

-- `net.IPv4zero` and `net.IPv6unspecified`.
abbrev pub ipv4_zero : List ℕ
ipv4_zero = replicate 10 0 ++ (255 ∷ 255 ∷ 0 ∷ 0 ∷ 0 ∷ 0 ∷ [])

abbrev pub ipv6_unspecified : List ℕ
ipv6_unspecified = replicate 16 0

-- `IP.IsUnspecified`.
abbrev pub is_unspecified : List ℕ → Bool
is_unspecified ip = elim (to4 ip) [ some b ↦ all_zero b | none ↦ (length ip == 16) && all_zero ip ]

abbrev first_is : (ℕ → Bool) → List ℕ → Bool
first_is f [] = false
first_is f (b ∷ bs) = f b

-- `IP.IsMulticast`.
abbrev pub is_multicast : List ℕ → Bool
is_multicast ip = elim (to4 ip) [
  | some b ↦ first_is (λ x. bit_and x 240 == 224) b
  | none ↦ (length ip == 16) && first_is (λ x. x == 255) ip
]

-- The family of a TCPAddr or UDPAddr.
abbrev pub ip_family : Option IpAddr → ℕ
ip_family none = af_inet
ip_family (some a) =
    if leb (length (octets a.ip)) 4
    then af_inet
    else if is_some (to4 (octets a.ip))
    then af_inet
    else af_inet6

-- `family` of sockAddr.
unfoldable pub family : Addr → ℕ
family (tcp a) = ip_family a
family (udp a) = ip_family a
family no_addr = 0
family other_addr = 0

abbrev is_wildcard_ip : Option (List ℕ) → Bool
is_wildcard_ip none = true
is_wildcard_ip (some b) = is_unspecified b

-- `isWildcard`.
unfoldable pub is_wildcard : Addr → Bool
is_wildcard (tcp none) = true
is_wildcard (tcp (some a)) = is_wildcard_ip a.ip
is_wildcard (udp none) = true
is_wildcard (udp (some a)) = is_wildcard_ip a.ip
is_wildcard no_addr = false
is_wildcard other_addr = false

-- `unwrap`: a nil pointer panics.
unfoldable pub unwrap : Addr → Go (Option (List ℕ) × ℕ)
unwrap (tcp none) = panics nil_dereference
unwrap (tcp (some a)) = ret (a.ip, a.port)
unwrap (udp none) = panics nil_dereference
unwrap (udp (some a)) = ret (a.ip, a.port)
unwrap no_addr = ret (some [], 0)
unwrap other_addr = ret (some [], 0)

-- `unwrap6`, whose third result is always the empty string.
unfoldable pub unwrap6 : Addr → Go (Option (List ℕ) × ℕ × String)
unfolding unwrap
unwrap6 a = unwrap a >>= λ r. ret (r.0, r.1, "")

-- `ipToSockaddrInet4`.
unfoldable pub ip_to_sockaddr_inet4 : Option (List ℕ) → ℕ → Error ⊎ Sockaddr
ip_to_sockaddr_inet4 ip port =
    elim (to4 (if length (octets ip) == 0 then ipv4_zero else octets ip)) [
      | none ↦ inl (errorf "non-IPv4 address" [])
      | some ip4 ↦ inr (inet4 ip4 port)
    ]

-- The text of an address for an error: `a.String()` of a nil interface panics.
abbrev invalid_family : Addr → Go (Error ⊎ Sockaddr)
invalid_family no_addr = panics nil_dereference
invalid_family a = ret (inl (errorf "invalid address family" []))

-- `sockaddr`.
unfoldable pub sockaddr : Addr → Go (Error ⊎ Sockaddr)
unfolding family unwrap ip_to_sockaddr_inet4
sockaddr a =
    if family a == af_inet
    then (unwrap a >>= λ r. ret (ip_to_sockaddr_inet4 r.0 r.1))
    else invalid_family a

-- `sockaddrToUDP`.
unfoldable pub sockaddr_to_udp : Option Sockaddr → Addr
sockaddr_to_udp (some (inet4 b port)) = udp (some (record { ip = some b; port = port }))
sockaddr_to_udp (some (inet6 b port)) = udp (some (record { ip = some b; port = port }))
sockaddr_to_udp sa = udp (some (record { ip = none; port = 0 }))

-- `supportsIPv4map` and `supportsIPv4`.
unfoldable pub supports_ipv4_map : Bool
supports_ipv4_map = false

unfoldable pub supports_ipv4 : Bool
supports_ipv4 = true

abbrev is_inet : Option Addr → Bool
is_inet none = true
is_inet (some a) = family a == af_inet

-- `favoriteAddrFamily`: the last byte of the network's name (52 is '4', 54 is '6'), where
-- `listening` is mode == "listen" and none a nil sockaddr.
unfoldable pub favorite_addr_family : ℕ → Option Addr → Option Addr → Bool → ℕ × Bool
unfolding is_wildcard supports_ipv4_map supports_ipv4 family
favorite_addr_family last laddr raddr listening =
    if last == 52
    then (af_inet, false)
    else if last == 54
    then (af_inet6, true)
    else if listening && elim laddr [ none ↦ true | some a ↦ is_wildcard a ]
    then (if supports_ipv4_map || not supports_ipv4
        then (af_inet6, false)
        else elim laddr [ none ↦ (af_inet, false) | some a ↦ (family a, false) ])
    else if is_inet laddr && is_inet raddr
    then (af_inet, false)
    else (af_inet6, false)

-- `boolint`.
unfoldable pub boolint : Bool → ℕ
boolint b = if b then 1 else 0

-- `os.NewSyscallError`, of a name and an error that may be nil.
abbrev pub syscall_error : String → Option Error → Option Error
syscall_error name none = none
syscall_error name (some e) = some (syscall name e)

-- `wrapSyscallError`.
unfoldable pub wrap_syscall_error : String → Option Error → Option Error
wrap_syscall_error name (some (errno n)) = some (syscall name (errno n))
wrap_syscall_error name e = e
