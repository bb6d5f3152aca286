-- ===== src/Handshake/Start/Listens.antt =====
-- base.go and listener.go: a listener on an IPv4 address.
use aionet.Common.{
  ltb, ◌%◌, ◌+◌, if◌then◌else◌, ℕ, ◌≡◌, refl, List, none, some, Error, ret, ◌⊎◌, inr,
}
use aionet.Sockets.{IpAddr, udp, octets, to4, sockaddr_to_udp, af_inet, sock_dgram}
use aionet.Sockets.Options.{reuse_addr, new_socket}
use aionet.Sockets.Bind.{Calls}
use aionet.Sockets.Bind.Multicast.{unbound, wanted, bind_lem}
use aionet.Handshake.{new_endpoint, get_ref_num}
use aionet.Handshake.Start.{new_listener, start_listener}

-- NewHdpListener of an IPv4 address, when no system call fails: its socket is bound to that
-- address, or to 0.0.0.0 in place of a multicast address, its local address is the one that the
-- system names, and its error is the poller's answer. It begins with a reference number that is the
-- clock's nanoseconds modulo 65536, 1000 more when that is below 1000, no number of the peer's, and
-- windows of 16, whatever the window size that it is given.
pub listener_listens :
    (created : ℕ → ℕ → Error ⊎ ℕ) (calls : Calls) (fd window_size nanosecond : ℕ) (a : IpAddr)
    (b : List ℕ)
    → created af_inet sock_dgram ≡ inr fd
    → to4 (octets a.ip) ≡ some b
    → calls.set (reuse_addr fd) ≡ none
    → calls.bound (wanted a b) ≡ none
    → new_listener (inr a) window_size created calls nanosecond
      ≡ ret (
          inr (record {
            socket = record (unbound af_inet fd a (udp none)) {
              laddr = sockaddr_to_udp calls.named;
            };
            endpoint = record {
              ref0 =
                  if ltb (nanosecond % 65536) 1000
                  then 1000 + nanosecond % 65536
                  else nanosecond % 65536;
              ref1 = 0;
              read_window = 16;
              write_window = 16;
            };
            err = calls.started;
          }))
unfolding new_listener new_socket start_listener new_endpoint get_ref_num
listener_listens created calls fd window_size nanosecond a b c e o h =
    rw (new_listener, new_socket, start_listener, c, bind_lem calls fd a (udp none) b e o h) refl
