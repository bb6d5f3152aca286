-- ===== src/Handshake/Start/Tests.antt =====
-- base.go and listener.go: a listener on 127.0.0.1.
use aionet.Common.{◌≡◌, refl, [], ◌∷◌, none, some, ret, inl, inr, errno, syscall}
use aionet.Sockets.{IpAddr, udp, inet4, sockaddr_to_udp, af_inet}
use aionet.Sockets.Options.{new_socket}
use aionet.Sockets.Bind.{Calls}
use aionet.Sockets.Bind.Multicast.{unbound}
use aionet.Handshake.{no_socket}
use aionet.Handshake.Start.{new_listener, new_accept_conn}
use aionet.Handshake.Start.Listens.{listener_listens}

abbrev local : IpAddr
local = record { ip = some (127 ∷ 0 ∷ 0 ∷ 1 ∷ []); port = 4040 }

abbrev accepting : Calls
accepting = record {
  set = λ o. none;
  bound = λ sa. none;
  named = some (inet4 (127 ∷ 0 ∷ 0 ∷ 1 ∷ []) 4040);
  started = none;
}

listener_listens_example :
    new_listener (inr local) 64 (λ fam sotype. inr 5) accepting 123456
    ≡ ret (
        inr (record {
          socket = record (unbound af_inet 5 local (udp none)) {
            laddr = sockaddr_to_udp accepting.named;
          };
          endpoint = record { ref0 = 57920; ref1 = 0; read_window = 16; write_window = 16 };
          err = none;
        }))
listener_listens_example =
    listener_listens (λ fam sotype. inr 5) accepting 5 64 123456 local (127 ∷ 0 ∷ 0 ∷ 1 ∷ []) refl
      refl refl refl

-- No descriptor is left: accepting fails with the error of unix.Socket.
no_descriptor :
    new_accept_conn (λ fam sotype. inl (errno 24)) none
    ≡ (none, no_socket (syscall "socket" (errno 24)))
unfolding new_accept_conn new_socket
no_descriptor = refl
