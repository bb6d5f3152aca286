-- ===== src/Sockets/Connect.antt =====
-- sock2.go: connect, connectToPeer, checkConnected and confirmConnected. What the system calls
-- return is given to each function; the numbers are those of the errors on Linux.
pub mod Waits
use aionet.Common.{
  ℕ, ◌≡◌, ◌==◌, ◌||◌, Bool, true, false, if◌then◌else◌, List, [], ◌∷◌, Option, none, some, is_some,
  Error, errno, hdp, Go, ret, panics, nil_dereference, ◌>>=◌, ◌⊎◌, inl, inr,
}
use aionet.Sockets.{Addr, Sockaddr, sockaddr, sockaddr_to_udp}
use aionet.Sockets.Options.{Socket}

-- What unix.Getpeername and unix.Getsockname return.
pub record Names : Type 0 where
  pub peer : Error ⊎ Sockaddr
  pub own : Error ⊎ Sockaddr

-- `confirmConnected`.
unfoldable pub confirm_connected : Names → Socket → Socket × Option Error
unfolding sockaddr_to_udp
confirm_connected names c = elim names.peer [
  | inl e ↦ (c, some e)
  | inr sa ↦ elim names.own [
    | inl e ↦ (record c { raddr = sockaddr_to_udp (some sa) }, some e)
    | inr own ↦
        (record c { raddr = sockaddr_to_udp (some sa); laddr = sockaddr_to_udp (some own) }, none)
  ]
]

-- `checkConnected`, by what unix.GetsockoptInt returns for SO_ERROR: EINPROGRESS, EALREADY and
-- EINTR, then EISCONN and no error.
unfoldable pub check_connected : Error ⊎ ℕ → Names → Socket → Socket × Option Error
unfolding confirm_connected
check_connected (inl e) names c = (c, some (hdp 24))
check_connected (inr n) names c =
    if (n == 115) || (n == 114) || (n == 4)
    then (c, none)
    else if n == 106
    then confirm_connected names c
    else if n == 0
    then confirm_connected names c
    else (c, some (hdp 24))

-- What a select of the loop receives, with what the calls of checkConnected return after it.
pub data Round : Type 0 where
  expired : Round
  answered : Option Error → Error ⊎ ℕ → Names → Round

-- The loop of connect, none while it goes on.
unfoldable pub connect_loop : List Round → Socket → Option (Socket × Option Error)
unfolding check_connected
connect_loop [] c = none
connect_loop (expired ∷ rounds) c = some (c, some (hdp 23))
connect_loop (answered (some e) so names ∷ rounds) c = some (c, some e)
connect_loop (answered none so names ∷ rounds) c =
    let (c1, err) = check_connected so names c in
    let again = connect_loop rounds c1 in elim err [ none ↦ again | some e ↦ some (c1, some e) ]

-- `connectToPeer`: the error that it sends, where `call` is what unix.Connect returns. After an
-- error of sockaddr it calls unix.Connect with a nil Sockaddr too, which panics.
unfoldable pub connect_to_peer : (Sockaddr → Option Error) → Addr → Go (Option Error)
unfolding sockaddr
connect_to_peer call raddr =
    sockaddr raddr >>= λ r. elim r [ inl e ↦ panics nil_dereference | inr sa ↦ ret (call sa) ]

-- connect from the switch over the error of connectToPeer on: EISCONN and EINVAL, and the loop after
-- any other error.
unfoldable pub switch_error :
    Option Error → Names → List Round → Socket → Option (Socket × Option Error)
unfolding confirm_connected connect_loop
switch_error none names rounds c = some (confirm_connected names c)
switch_error (some (errno n)) names rounds c =
    let loop = connect_loop rounds c in
    if n == 106
    then some (confirm_connected names c)
    else if n == 22
    then some (c, some (hdp 22))
    else loop
switch_error (some e) names rounds c = connect_loop rounds c

-- `connect`: `late` tells that the deadline comes before the error of connectToPeer.
unfoldable pub connect :
    (Sockaddr → Option Error)
    → Bool
    → Names
    → List Round
    → Addr
    → Socket
    → Go (Option (Socket × Option Error))
unfolding connect_to_peer switch_error
connect call late names rounds raddr c = connect_to_peer call raddr >>= λ first.
    ret (if late then some (c, some (hdp 21)) else switch_error first names rounds c)
