-- ===== src/Sockets/Addresses.antt =====
-- sock.go: the addresses of the code against those of the system.
use aionet.Common.{
  ℕ, ◌≡◌, ◌≢◌, ◌==◌, ◌≤◌, ◌<◌, ◌∙◌, ap, refl, arith, false, List, [], ◌∷◌, length, replicate,
  length-drop, Option, none, some, errorf, ret, ◌⊎◌, inl, inr, Option-cases,
}
use native.Mathlib.Decide.{dec_lt}
use aionet.Sockets.{
  IpAddr, udp, inet4, octets, to4, ip_family, family, af_inet, unwrap, ip_to_sockaddr_inet4,
  sockaddr, sockaddr_to_udp,
}

to4-length : (ip b : List ℕ) → to4 ip ≡ some b → length b ≡ 4
to4-length ip b h = ground (arith, length-drop 12 ip)

to4-nonempty : (ip b : List ℕ) → to4 ip ≡ some b → (length ip == 0) ≡ false
to4-nonempty ip b h = ground arith

pub to4_self : (b : List ℕ) → length b ≡ 4 → to4 b ≡ some b
to4_self b h = rw h refl

family-udp : (a : IpAddr) (b : List ℕ) → to4 (octets a.ip) ≡ some b → ip_family (some a) ≡ af_inet
family-udp a b h = ground arith

to4_not_empty : (ip b : List ℕ) → to4 ip ≡ some b → (length ip == 0) ≡ false
to4_not_empty ip b h = ground arith

-- What sockaddr makes of a pointer to an address of the family AF_INET, and of one of another.
sockaddr-inet :
    (a : IpAddr)
    → ip_family (some a) ≡ af_inet
    → sockaddr (udp (some a)) ≡ ret (ip_to_sockaddr_inet4 a.ip a.port)
unfolding sockaddr family unwrap
sockaddr-inet a h = rw h refl

sockaddr-other :
    (a : IpAddr)
    → (ip_family (some a) == af_inet) ≡ false
    → sockaddr (udp (some a)) ≡ ret (inl (errorf "invalid address family" []))
unfolding sockaddr family unwrap
sockaddr-other a h = rw h refl

inet4-to4 :
    (ip : Option (List ℕ)) (port : ℕ) (b : List ℕ)
    → to4 (octets ip) ≡ some b
    → ip_to_sockaddr_inet4 ip port ≡ inr (inet4 b port)
unfolding ip_to_sockaddr_inet4
inet4-to4 ip port b h = rw (ip_to_sockaddr_inet4, to4_not_empty (octets ip) b h, h) refl

inet4-none :
    (ip : Option (List ℕ)) (port : ℕ)
    → (length (octets ip) == 0) ≡ false
    → to4 (octets ip) ≡ none
    → ip_to_sockaddr_inet4 ip port ≡ inl (errorf "non-IPv4 address" [])
unfolding ip_to_sockaddr_inet4
inet4-none ip port e h = rw (ip_to_sockaddr_inet4, e, h) refl

inet4-nil :
    (ip : Option (List ℕ)) (port : ℕ)
    → octets ip ≡ []
    → ip_to_sockaddr_inet4 ip port ≡ inr (inet4 (replicate 4 0) port)
unfolding ip_to_sockaddr_inet4
inet4-nil ip port e = rw (ip_to_sockaddr_inet4, e) refl

family-short : (a : IpAddr) → length (octets a.ip) ≤ 4 → ip_family (some a) ≡ af_inet
family-short a h = ground arith

family-long :
    (a : IpAddr)
    → to4 (octets a.ip) ≡ none
    → 4 < length (octets a.ip)
    → (ip_family (some a) == af_inet) ≡ false
family-long a e h = ground arith

not_four : (ip : List ℕ) → to4 ip ≡ none → length ip ≢ 4
not_four ip e = ground arith

empty_or_not : (b : List ℕ) → (b ≡ []) ⊎ (0 < length b)
empty_or_not [] = inl refl
empty_or_not (x ∷ b) = inr (omega arith)

-- An address with an IPv4 address in either of its two lengths becomes its four bytes and its port,
-- and back.
pub sockaddr_round_trip :
    (a : IpAddr) (b : List ℕ)
    → to4 (octets a.ip) ≡ some b
    → (sockaddr (udp (some a)) ≡ ret (inr (inet4 b a.port)))
      × (sockaddr_to_udp (some (inet4 b a.port))
          ≡ udp (some (record { ip = some b; port = a.port })))
      × (to4 b ≡ some b)
      × (sockaddr (sockaddr_to_udp (some (inet4 b a.port))) ≡ ret (inr (inet4 b a.port)))
unfolding sockaddr_to_udp
sockaddr_round_trip a b h =
    let same = to4_self b (to4-length (octets a.ip) b h) in
    let back : IpAddr = record { ip = some b; port = a.port } in
    (
      sockaddr-inet a (family-udp a b h) ∙ ap ret (inet4-to4 a.ip a.port b h),
      refl,
      same,
      sockaddr-inet back (family-udp back b same) ∙ ap ret (inet4-to4 back.ip a.port b same),
    )

-- What becomes of a pointer to an address: one without a byte stands for 0.0.0.0, one with an IPv4
-- address for that, and any other is refused, for its length when it has at most four bytes and for
-- its family when it has more.
pub sockaddr_cases :
    (a : IpAddr)
    → ((octets a.ip ≡ []) × (sockaddr (udp (some a)) ≡ ret (inr (inet4 (replicate 4 0) a.port))))
      ⊎ ((b : List ℕ) × (to4 (octets a.ip) ≡ some b)
          × (sockaddr (udp (some a)) ≡ ret (inr (inet4 b a.port))))
      ⊎ ((to4 (octets a.ip) ≡ none)
          × (0 < length (octets a.ip))
          × (length (octets a.ip) < 4)
          × (sockaddr (udp (some a)) ≡ ret (inl (errorf "non-IPv4 address" []))))
      ⊎ ((to4 (octets a.ip) ≡ none)
          × (4 < length (octets a.ip))
          × (sockaddr (udp (some a)) ≡ ret (inl (errorf "invalid address family" []))))
sockaddr_cases a = elim (Option-cases (to4 (octets a.ip))) [
  | inr (b, e) ↦ inr (inl (b, e, (sockaddr_round_trip a b e).0))
  | inl e ↦ elim (empty_or_not (octets a.ip)) [
    | inl n ↦ inl (
      n,
      sockaddr-inet a (family-short a (rw n (omega arith))) ∙ ap ret (inet4-nil a.ip a.port n),
    )
    | inr pos ↦ elim (dec_lt 4 (length (octets a.ip))) [
      | yes long ↦ inr (inr (inr (e, long, sockaddr-other a (family-long a e long))))
      | no short ↦ inr (
          inr (
            inl (
              e,
              pos,
              omega (arith, not_four (octets a.ip) e),
              sockaddr-inet a (family-short a (omega arith))
                  ∙ ap ret (inet4-none a.ip a.port (ground arith) e),
            )))
    ]
  ]
]
