-- ===== src/Handshake/Start.antt =====
-- base.go, NewHdpDialer and NewHdpListener, with start of dialer.go and listener.go, and
-- newAcceptConn of transport.go: the sockets and the state with which both sides begin. What the
-- system calls return is given to each function.
pub mod Listens
mod Tests
use aionet.Common.{ℕ, Option, none, some, Error, Go, ret, ◌>>=◌, ◌⊎◌, inl, inr}
use aionet.Sockets.{IpAddr}
use aionet.Sockets.Options.{Socket, new_socket}
use aionet.Sockets.Bind.{Calls, bind}
use aionet.Handshake.{Endpoint, new_endpoint, NewConn, no_socket, no_init, opened}

-- A dialer or listener: its socket, the state that its two goroutines share, and the error that
-- comes with it.
pub record Side : Type 0 where
  pub socket : Socket
  pub endpoint : Endpoint
  pub err : Option Error

-- `NewHdpDialer` with `start`: `created` is unix.Socket, `started` the answer to init.
unfoldable pub new_dialer : (ℕ → ℕ → Error ⊎ ℕ) → Option Error → ℕ → Error ⊎ Side
unfolding new_socket new_endpoint
new_dialer created started nanosecond = elim (new_socket created none none) [
  | inl e ↦ inl e
  | inr s ↦ inr (record { socket = s; endpoint = new_endpoint nanosecond; err = started })
]

-- `start` of HdpListener, which binds its socket.
unfoldable pub start_listener : Calls → ℕ → Socket → Go Side
unfolding bind new_endpoint
start_listener calls nanosecond s = bind calls s >>= λ r.
    ret (record { socket = r.0; endpoint = new_endpoint nanosecond; err = r.1 })

-- `NewHdpListener`, of what ResolveUDPAddr returns; the window size is only kept in the listener's
-- own copy of its socket.
unfoldable pub new_listener :
    Error ⊎ IpAddr → ℕ → (ℕ → ℕ → Error ⊎ ℕ) → Calls → ℕ → Go (Error ⊎ Side)
unfolding new_socket start_listener
new_listener (inl e) window_size created calls nanosecond = ret (inl e)
new_listener (inr laddr) window_size created calls nanosecond =
    elim (new_socket created (some laddr) none) [
      | inl e ↦ ret (inl e)
      | inr s ↦ start_listener calls nanosecond s >>= λ side. ret (inr side)
    ]

-- `newAcceptConn`: the new socket, and how it went.
unfoldable pub new_accept_conn : (ℕ → ℕ → Error ⊎ ℕ) → Option Error → Option Socket × NewConn
unfolding new_socket
new_accept_conn created started = elim (new_socket created none none) [
  | inl e ↦ (none, no_socket e)
  | inr s ↦ (some s, elim started [ none ↦ opened | some e ↦ no_init e ])
]
