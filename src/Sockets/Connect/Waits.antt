-- ===== src/Sockets/Connect/Waits.antt =====
-- sock2.go, connect: when it succeeds.
use aionet.Common.{
  ◌≡◌, ◌≢◌, ◌↔◌, ap, refl, sym, arith, Bool, true, false, if◌then◌else◌, List, [], ◌∷◌, ◌++◌,
  Option, none, some, Error, hdp, errorf, syscall, eof, unexpected_eof, deadline_exceeded, Go, ret,
  ret-injective, panics, nil_dereference, Option-cases, errno, ◌⊎◌, ◌>>=◌, inl, inr,
}
use aionet.Sockets.{Addr, Sockaddr, sockaddr, sockaddr_to_udp}
use aionet.Sockets.Options.{Socket}
use aionet.Sockets.Connect.{
  Names, confirm_connected, check_connected, Round, expired, answered, connect_loop,
  connect_to_peer, switch_error, connect,
}

-- Once connect has to wait, it ends by the deadline at the latest, and always with an error, also
-- when checkConnected finds the socket connected.
pub connect_loop_fails :
    (rounds rest : List Round) (c : Socket)
    → (c1 : Socket) × (e : Error) × (connect_loop (rounds ++ (expired ∷ rest)) c
        ≡ some (c1, some e))
unfolding connect_loop
connect_loop_fails [] rest c = (c, hdp 23, refl)
connect_loop_fails (expired ∷ rounds) rest c = (c, hdp 23, refl)
connect_loop_fails (answered (some e) so names ∷ rounds) rest c = (c, e, refl)
connect_loop_fails (answered none so names ∷ rounds) rest c =
    elim (Option-cases (check_connected so names c).1) [
      | inr (e, h) ↦ ((check_connected so names c).0, e, rw (connect_loop, h) refl)
      | inl h ↦
          let (c1, e, k) = connect_loop_fails rounds rest (check_connected so names c).0 in
          (c1, e, rw (connect_loop, h) k)
    ]

loop_error : (rounds : List Round) (c c1 : Socket) → connect_loop rounds c ≢ some (c1, none)
unfolding connect_loop
loop_error [] c c1 h = cc
loop_error (expired ∷ rounds) c c1 h = cc
loop_error (answered (some e) so names ∷ rounds) c c1 h = cc
loop_error (answered none so names ∷ rounds) c c1 h =
    elim (Option-cases (check_connected so names c).1) [
      | inr (e, k) ↦ let impossible = rw (connect_loop, k) at h in cc
      | inl k ↦ loop_error rounds (check_connected so names c).0 c1 (rw (connect_loop, k) at h)
    ]

result_cases : {A B : Type 0} (x : A ⊎ B) → ((a : A) × (x ≡ inl a)) ⊎ ((b : B) × (x ≡ inr b))
result_cases (inl a) = inl (a, refl)
result_cases (inr b) = inr (b, refl)

module _ (names : Names) (c c1 : Socket) where
  -- The socket of both names.
  abbrev pub Confirmed : Type 0
  Confirmed =
      (peer own : Sockaddr) × (names.peer ≡ inr peer)
      × (names.own ≡ inr own)
      × (c1 ≡ record c { raddr = sockaddr_to_udp (some peer); laddr = sockaddr_to_udp (some own) })

  confirm_connected-Confirmed : confirm_connected names c ≡ (c1, none) → Confirmed
  unfolding confirm_connected
  confirm_connected-Confirmed h = elim (result_cases names.peer) [
    | inl (e, p) ↦ let impossible = rw p at h in cc
    | inr (peer, p) ↦ elim (result_cases names.own) [
      | inl (e, q) ↦ let impossible = rw (p, q) at h in cc
      | inr (own, q) ↦ let done = rw (p, q) at h in (peer, own, p, q, sym (ap (λ r. r.0) done))
    ]
  ]

  Confirmed-confirm_connected : Confirmed → confirm_connected names c ≡ (c1, none)
  unfolding confirm_connected
  Confirmed-confirm_connected (peer, own, h, k, e) = rw (h, k, e) refl

  switch_error-succeeds :
      (first : Option Error) (rounds : List Round)
      → switch_error first names rounds c ≡ some (c1, none)
      → ((first ≡ none) ⊎ (first ≡ some (errno 106))) × (confirm_connected names c ≡ (c1, none))
  unfolding switch_error
  switch_error-succeeds none rounds h =
      (inl refl, ap (λ o. elim o [ none ↦ (c, none) | some r ↦ r ]) h)
  switch_error-succeeds (some (errno n)) rounds h = ground (arith, h, loop_error rounds c c1)
  switch_error-succeeds (some (hdp n)) rounds h = absurd (loop_error rounds c c1 h)
  switch_error-succeeds (some (errorf s n)) rounds h = absurd (loop_error rounds c c1 h)
  switch_error-succeeds (some (syscall s e)) rounds h = absurd (loop_error rounds c c1 h)
  switch_error-succeeds (some eof) rounds h = absurd (loop_error rounds c c1 h)
  switch_error-succeeds (some unexpected_eof) rounds h = absurd (loop_error rounds c c1 h)
  switch_error-succeeds (some deadline_exceeded) rounds h = absurd (loop_error rounds c c1 h)

  switch_error-connects :
      (first : Option Error) (rounds : List Round)
      → (first ≡ none) ⊎ (first ≡ some (errno 106))
      → Confirmed
      → switch_error first names rounds c ≡ some (c1, none)
  unfolding switch_error
  switch_error-connects first rounds (inl e) k = rw e (ap some (Confirmed-confirm_connected k))
  switch_error-connects first rounds (inr e) k = rw e (ap some (Confirmed-confirm_connected k))

connects_late :
    (late : Bool) (o : Option (Socket × Option Error)) (c c1 : Socket)
    → (if late then some (c, some (hdp 21)) else o) ≡ some (c1, none)
    → (late ≡ false) × (o ≡ some (c1, none))
connects_late true o c c1 h = cc
connects_late false o c c1 h = (refl, h)

-- connect returns without an error exactly when the address converts to one of the system, the
-- deadline does not come first, unix.Connect answers the first call without an error or with EISCONN,
-- and both names of the connected socket are known: those become its addresses, and nothing else
-- of it changes.
pub connect_succeeds_iff :
    (call : Sockaddr → Option Error) (late : Bool) (names : Names) (rounds : List Round)
    (raddr : Addr) (c c1 : Socket)
    → (connect call late names rounds raddr c ≡ ret (some (c1, none))) ↔ (
        (sa peer own : Sockaddr) × (sockaddr raddr ≡ ret (inr sa))
        × (late ≡ false)
        × ((call sa ≡ none) ⊎ (call sa ≡ some (errno 106)))
        × (names.peer ≡ inr peer)
        × (names.own ≡ inr own)
        × (c1
            ≡ record c { raddr = sockaddr_to_udp (some peer); laddr = sockaddr_to_udp (some own) }))
unfolding connect connect_to_peer
connect_succeeds_iff call late names rounds raddr c c1 = (
  from_call (sockaddr raddr) refl,
  λ (sa, peer, own, s, l, f, p, q, d).
      rw (s, l) (ap ret (switch_error-connects names c c1 (call sa) rounds f (peer, own, p, q, d))),
)
  where
    from_call :
        (m : Go (Error ⊎ Sockaddr))
        → sockaddr raddr ≡ m
        → ((m >>= λ r. elim r [ inl e ↦ panics nil_dereference | inr sa ↦ ret (call sa) ])
            >>= λ first.
                ret (if late then some (c, some (hdp 21)) else switch_error first names rounds c))
          ≡ ret (some (c1, none))
        → (sa peer own : Sockaddr) × (sockaddr raddr ≡ ret (inr sa))
          × (late ≡ false)
          × ((call sa ≡ none) ⊎ (call sa ≡ some (errno 106)))
          × (names.peer ≡ inr peer)
          × (names.own ≡ inr own)
          × (c1 ≡ record c {
            raddr = sockaddr_to_udp (some peer);
            laddr = sockaddr_to_udp (some own);
          })
    from_call (panics e) m h = cc
    from_call (ret (inl e)) m h = cc
    from_call (ret (inr sa)) m h =
        let (l, o) = connects_late late _ c c1 (ret-injective h) in
        let (f, k) = switch_error-succeeds names c c1 (call sa) rounds o in
        let (peer, own, p, q, d) = confirm_connected-Confirmed names c c1 k in
        (sa, peer, own, m, l, f, p, q, d)
