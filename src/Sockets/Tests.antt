-- ===== src/Sockets/Tests.antt =====
-- sock.go, sock1.go and sock2.go: the theorems at concrete addresses and answers.
use aionet.Common.{
  Option, zero, suc, ℕ, ◌≡◌, ◌<◌, ◌↔◌, refl, arith, true, false, List, [], ◌∷◌, ◌++◌, length,
  replicate, none, some, Error, errno, errorf, hdp, ret, panics, nil_dereference, ◌⊎◌, inl, inr,
}
use aionet.Sockets.{
  IpAddr, Addr, Sockaddr, no_addr, other_addr, udp, inet4, octets, to4, ipv6_unspecified, sockaddr,
  sockaddr_to_udp, af_inet, af_inet6, family, is_wildcard, favorite_addr_family, supports_ipv4_map,
  supports_ipv4,
}
use aionet.Sockets.Addresses.{sockaddr_round_trip, sockaddr_cases}
use aionet.Sockets.Options.{Socket, broadcast, v6_only, set_default_sockopts}
use aionet.Sockets.Io.{Datagrams, recv_round, on_read_from, send_round, on_write_to}
use aionet.Sockets.Io.Replies.{reply_reaches_sender}
use aionet.Sockets.Connect.{
  Names, expired, answered, connect, connect_loop, connect_to_peer, switch_error, confirm_connected,
  check_connected,
}
use aionet.Sockets.Connect.Waits.{connect_loop_fails, connect_succeeds_iff}
use aionet.Sockets.Bind.{Calls, bind}
use aionet.Sockets.Bind.Multicast.{unbound, bind_ipv6_group_fails}

-- 10.0.0.7 in sixteen bytes, and an IPv6 multicast address.
abbrev mapped : IpAddr
mapped = record { ip = some (replicate 10 0 ++ (255 ∷ 255 ∷ 10 ∷ 0 ∷ 0 ∷ 7 ∷ [])); port = 4040 }

abbrev group6 : IpAddr
group6 = record { ip = some (255 ∷ 2 ∷ replicate 14 0); port = 4040 }

abbrev seven : List ℕ
seven = 10 ∷ 0 ∷ 0 ∷ 7 ∷ []

sockaddr_round_trip_example :
    (sockaddr (udp (some mapped)) ≡ ret (inr (inet4 seven 4040)))
    × (sockaddr_to_udp (some (inet4 seven 4040))
        ≡ udp (some (record { ip = some seven; port = 4040 })))
    × (to4 seven ≡ some seven)
    × (sockaddr (sockaddr_to_udp (some (inet4 seven 4040))) ≡ ret (inr (inet4 seven 4040)))
sockaddr_round_trip_example = sockaddr_round_trip mapped seven refl

sockaddr_cases_example :
    ((octets group6.ip ≡ [])
      × (sockaddr (udp (some group6)) ≡ ret (inr (inet4 (replicate 4 0) 4040))))
    ⊎ ((b : List ℕ) × (to4 (octets group6.ip) ≡ some b)
        × (sockaddr (udp (some group6)) ≡ ret (inr (inet4 b 4040))))
    ⊎ ((to4 (octets group6.ip) ≡ none)
        × (0 < length (octets group6.ip))
        × (length (octets group6.ip) < 4)
        × (sockaddr (udp (some group6)) ≡ ret (inl (errorf "non-IPv4 address" []))))
    ⊎ ((to4 (octets group6.ip) ≡ none)
        × (4 < length (octets group6.ip))
        × (sockaddr (udp (some group6)) ≡ ret (inl (errorf "invalid address family" []))))
sockaddr_cases_example = sockaddr_cases group6

-- The family of a wildcard listener, and that of an IPv6 address.
wildcard_family : favorite_addr_family 112 (some (udp none)) none true ≡ (af_inet, false)
unfolding favorite_addr_family is_wildcard family supports_ipv4_map supports_ipv4
wildcard_family = refl

group6_family : favorite_addr_family 112 (some (udp (some group6))) none true ≡ (af_inet6, false)
unfolding favorite_addr_family is_wildcard family supports_ipv4_map supports_ipv4
group6_family = refl

-- Both options of an IPv6 datagram socket; the error of the first is lost.
ipv6_options :
    set_default_sockopts (λ o. none) 5 af_inet6 2 false ≡ (none, v6_only 5 false ∷ broadcast 5 ∷ [])
unfolding set_default_sockopts
ipv6_options = refl

-- The state counts the calls: the first of each kind is interrupted.
abbrev busy : Datagrams ℕ
busy = record {
  recvfrom = λ s n. elim s [
    | zero ↦ ([], none, some (errno 4), 1)
    | suc k ↦ (1 ∷ 2 ∷ [], some (inet4 seven 4040), none, 0)
  ];
  sendto = λ s p sa. elim s [ zero ↦ (some (errno 4), 1) | suc k ↦ (none, 2) ];
}

reply_reaches_sender_example :
    (addr : Addr) × (on_read_from none busy 2 0 16 ≡ some ((1 ∷ 2 ∷ [], addr, none), 0))
    × (on_write_to none busy 2 0 (3 ∷ []) addr ≡ ret (some ((1, none), 2)))
unfolding recv_round send_round
reply_reaches_sender_example =
    reply_reaches_sender busy 1 1 2 16 0 0 2 1 (2 ∷ []) seven 4040 none (3 ∷ []) (omega arith)
      (omega arith) refl (refl, tt) refl (refl, tt) refl

abbrev peers : Names
peers = record { peer = inr (inet4 seven 4040); own = inr (inet4 (10 ∷ 0 ∷ 0 ∷ 1 ∷ []) 5050) }

abbrev fresh : Socket
fresh = record { fd = 5; family = af_inet; laddr = udp none; raddr = udp none }

abbrev connected : Socket
connected = record {
  fd = 5;
  family = af_inet;
  laddr = udp (some (record { ip = some (10 ∷ 0 ∷ 0 ∷ 1 ∷ []); port = 5050 }));
  raddr = udp (some (record { ip = some seven; port = 4040 }));
}

abbrev accepts : Sockaddr → Option Error
accepts sa = none

connect_succeeds_iff_example :
    (connect accepts false peers [] (udp (some mapped)) fresh ≡ ret (some (connected, none))) ↔ (
      (sa peer own : Sockaddr) × (sockaddr (udp (some mapped)) ≡ ret (inr sa))
      × (false ≡ false)
      × ((accepts sa ≡ none) ⊎ (accepts sa ≡ some (errno 106)))
      × (peers.peer ≡ inr peer)
      × (peers.own ≡ inr own)
      × (connected ≡ record fresh {
        raddr = sockaddr_to_udp (some peer);
        laddr = sockaddr_to_udp (some own);
      }))
connect_succeeds_iff_example =
    connect_succeeds_iff accepts false peers [] (udp (some mapped)) fresh connected

connects_at_once :
    connect (λ sa. none) false peers [] (udp (some mapped)) fresh ≡ ret (some (connected, none))
unfolding connect switch_error connect_to_peer sockaddr confirm_connected sockaddr_to_udp
connects_at_once = refl

connect_loop_fails_example :
    (c1 : Socket) × (e : Error) × (connect_loop
        ((answered none (inr 0) peers ∷ []) ++ (expired ∷ []))
        fresh
      ≡ some (c1, some e))
connect_loop_fails_example = connect_loop_fails (answered none (inr 0) peers ∷ []) [] fresh

-- A socket that checkConnected finds connected times out all the same.
connected_times_out :
    connect_loop (answered none (inr 0) peers ∷ expired ∷ []) fresh
    ≡ some (connected, some (hdp 23))
unfolding connect_loop check_connected confirm_connected sockaddr_to_udp
connected_times_out = refl

abbrev accepting : Calls
accepting = record {
  set = λ o. none;
  bound = λ sa. none;
  named = some (inet4 (replicate 4 0) 4040);
  started = none;
}

ipv6_group_is_not_bound :
    bind accepting (unbound af_inet6 5 group6 no_addr)
    ≡ ret (
      unbound af_inet6 5 (record group6 { ip = some ipv6_unspecified }) no_addr,
      some (errorf "invalid address family" []),
    )
ipv6_group_is_not_bound = bind_ipv6_group_fails accepting 5 group6 no_addr refl refl

-- EISCONN is success too, a refused connection waits for the deadline, and an address that does not
-- convert panics.
connected_already :
    connect (λ sa. some (errno 106)) false peers [] (udp (some mapped)) fresh
    ≡ ret (some (connected, none))
unfolding connect switch_error connect_to_peer sockaddr confirm_connected sockaddr_to_udp
connected_already = refl

refusal_waits :
    connect (λ sa. some (errno 111)) false peers (expired ∷ []) (udp (some mapped)) fresh
    ≡ ret (some (fresh, some (hdp 23)))
unfolding connect switch_error connect_to_peer sockaddr connect_loop
refusal_waits = refl

bad_address_panics :
    connect (λ sa. none) false peers (expired ∷ []) other_addr fresh ≡ panics nil_dereference
unfolding connect connect_to_peer sockaddr
bad_address_panics = refl
