-- ===== src/Epoller/Poller/Handle.antt =====
-- epoller/poller.go: epoller's handlers of events and requests, and the loop of `run`.
use Prim.Native.Char.{Char, code}
use Prim.Native.String.{String}
use aionet.Common.{
  insert, ℕ, ◌+◌, Bool, true, false, not, ◌&&◌, Option, none, some, List, [], ◌∷◌, ◌==◌,
  if◌then◌else◌, Error, is_some, Go, ret, ◌>>=◌, deref, index,
}
use aionet.Epoller.{
  ReqRef, IoReq, EpollEvent, IoEvent, IoRace, write_count, start_timer, Unix, has, pev_reset,
  ev_read, ev_write, zero_time, is_deadline_exceeded, is_timeout_error, new_io_event, new_io_race,
}
use aionet.Epoller.Race.{do_io_timeout, new_done_ch, send_error}
use aionet.Epoller.Poller.{
  Slots, Poller, emit, slots, get_io_race, put_io_race, undefined_race, cancel_io, check_affinity,
  delete_by_fd, control, rearm, rearm1, on_ready,
}

-- The first switch of handleIoReady: the reading side, the poller, and whether it rearmed.
unfoldable pub ready_in : Unix → EpollEvent → IoEvent → IoRace → Poller → IoRace × Poller × Bool
unfolding on_ready rearm1
ready_in u pev ev r p =
    if has pev.events u.epollin
    then (let (r', tr) = on_ready ev (r, p.trace) in (r', record p { trace = tr }, false))
    else if is_some r.ch
    then (record r { armed = true }, (rearm1 u p pev.fd r.mode).0, true)
    else (r, p, false)

-- The second switch: the writing side, rearmed only if the first was not.
unfoldable pub ready_out : Unix → EpollEvent → IoEvent → Bool → IoRace → Poller → IoRace × Poller
unfolding on_ready rearm1
ready_out u pev ev rearmed w p =
    if has pev.events u.epollout
    then (let (w', tr) = on_ready ev (w, p.trace) in (w', record p { trace = tr }))
    else if is_some w.ch && not rearmed
    then (record w { armed = true }, (rearm1 u p pev.fd w.mode).0)
    else (w, p)

-- handleIoReady once both races are known.
unfoldable pub on_events : Unix → EpollEvent → IoEvent → IoRace → IoRace → Poller → Poller
unfolding ready_in ready_out
on_events u pev ev r w p =
    if has pev.events u.epollerr
    then p
    else (let (r', q, rearmed) = ready_in u pev ev r p in
        let (w', q') = ready_out u pev ev rearmed w q in
        record q' { race = insert pev.fd (record { rd = some r'; wr = some w' }) q'.race })

-- The first log line reads `race[R].cid` and `race[W].cid`, so a missing race panics there, before
-- the case that would report it.
unfoldable pub handle_io_ready : Unix → EpollEvent → IoEvent → Poller → Go Poller
unfolding on_events
handle_io_ready u pev ev p = do
  r ← deref (slots p pev.fd).rd
  w ← deref (slots p pev.fd).wr
  ret (on_events u pev ev r w p)

unfoldable pub handle_timeout : Unix → EpollEvent → IoEvent → Poller → Poller
unfolding get_io_race do_io_timeout
handle_timeout u pev ev p =
    let ref = ev.req.ref in
    elim (get_io_race p ref) [
      | none ↦ p
      | some r ↦
          if ref.mode == ev_read
          then (if has pev.events u.epollin
              then put_io_race p ref (do_io_timeout ev (r, p.trace))
              else p)
          else if ref.mode == ev_write
          then (if has pev.events u.epollout
              then put_io_race p ref (do_io_timeout ev (r, p.trace))
              else p)
          else p
    ]

-- The loop of handleIoError over the events.
unfoldable pub handle_timeouts : Unix → List EpollEvent → IoEvent → Poller → Poller
unfolding handle_timeout
handle_timeouts u [] ev p = p
handle_timeouts u (pev ∷ pevs) ev p = handle_timeouts u pevs ev (handle_timeout u pev ev p)

-- An error that is no timeout is only logged.
unfoldable pub handle_io_error : Unix → IoEvent → Poller → Poller
unfolding handle_timeouts
handle_io_error u ev p = if is_deadline_exceeded ev.err then handle_timeouts u ev.pev ev p else p

-- putEventCount is the write to the eventfd.
unfoldable pub others : Unix → Poller → IoReq → Poller × Option Error
others u p req = elim p.efd [
  | none ↦ (p, none)
  | some fd ↦ if req.ref.fd == fd then (emit (write_count 1) p, u.on_write p.trace 1) else (p, none)
]

-- The timer's goroutine submits the event at `ref.deadline`, with the time in `timed_at`.
unfoldable pub race_deadline : Poller → ReqRef → Go (Poller × Option Error)
unfolding get_io_race new_done_ch new_io_event
race_deadline p ref = elim (get_io_race p ref) [
  | none ↦ ret (p, some undefined_race)
  | some r ↦ do
    let r1 = record r { err = if is_timeout_error r.err then none else r.err; timed_at = zero_time }
    (r2, dl_ref) ← new_done_ch p.next_ch r1
    let event = new_io_event ref dl_ref (record { events = ref.flags; fd = ref.fd } ∷ [])
    ret (
      record (put_io_race p ref (r2, start_timer p.next_ch event ∷ p.trace)) {
        next_ch = p.next_ch + 1;
      },
      r2.err,
    )
]

unfoldable pub reset_io_ready : Poller → ReqRef → Poller
unfolding get_io_race
reset_io_ready p ref = elim (get_io_race p ref) [
  | none ↦ p
  | some r ↦ put_io_race p ref (record r { ready = false; armed = false }, p.trace)
]

-- Putting a character before the first of the parts.
cons_head : Char → List String → List String
cons_head c [] = []
cons_head c (x ∷ xs) = String.◌∷◌ c x ∷ xs

-- `strings.Split(s, "|")`.
unfoldable pub split_bar : String → List String
unfolding cons_head
split_bar String.[] = String.[] ∷ []
split_bar (String.◌∷◌ c s) =
    let rest = split_bar s in if code c == b'|' then String.[] ∷ rest else cons_head c rest

-- A cid with no `|` panics.
unfoldable pub watch : Unix → Poller → ReqRef → Go (Poller × Option Error)
unfolding new_io_race split_bar
watch u p ref = do
  r ← index (split_bar ref.cid) 0
  w ← index (split_bar ref.cid) 1
  let s : Slots = record { rd = some (new_io_race r ev_read); wr = some (new_io_race w ev_write) }
  ret (control u (record p { race = insert ref.fd s p.race }) u.ctl_add ref.fd ref.flags)

-- The error is sent as the reply.
abbrev pub with_reply : Poller × Option Error → Go (Poller × Option (Option Error))
with_reply (q, err) = ret (q, some err)

-- What handleReq does for a request: `none` when the reply is left to rearm, and otherwise the
-- error that it sends.
unfoldable pub dispatch_req : Unix → IoReq → Poller → Go (Poller × Option (Option Error))
unfolding delete_by_fd watch reset_io_ready rearm cancel_io race_deadline others
dispatch_req u req p =
    if req.op == u.ctl_del
    then with_reply (delete_by_fd u p req.ref)
    else if req.op == u.ctl_add
    then (watch u p req.ref >>= with_reply)
    else if req.op == u.ctl_mod
    then (if has req.ref.flags (pev_reset u)
        then ret (reset_io_ready p req.ref, some none)
        else (let (q, err) = rearm u p req.ref req.ch in
            ret (q, if is_some err then some err else none)))
    else if req.op == u.epollhup
    then with_reply (cancel_io p req)
    else if req.op == 0
    then (if req.ref.deadline == zero_time
        then with_reply (cancel_io p req)
        else (race_deadline p req.ref >>= with_reply))
    else with_reply (others u p req)

unfoldable pub handle_req : Unix → IoReq → Poller → Go Poller
unfolding dispatch_req send_error
handle_req u req p = do
  (q, sent) ← dispatch_req u req p
  elim sent [ none ↦ ret q | some err ↦ ret (record q { trace = send_error req err q.trace }) ]

abbrev pub is_efd : Poller → ℕ → Bool
is_efd p fd = elim p.efd [ none ↦ false | some n ↦ fd == n ]

-- `if fd == p.efd { p.running = p.checkAffinity() }`.
unfoldable pub with_affinity : Unix → EpollEvent → Poller → Poller
unfolding check_affinity
with_affinity u pev p =
    if is_efd p pev.fd
    then (let (q, more) = check_affinity u p in record q { running = more })
    else p

-- The loop over the events of one wait.
unfoldable pub handle_events : Unix → List EpollEvent → IoEvent → Poller → Go Poller
unfolding handle_io_ready with_affinity
handle_events u [] ev p = ret p
handle_events u (pev ∷ pevs) ev p =
    handle_io_ready u pev ev (with_affinity u pev p) >>= λ q. handle_events u pevs ev q

-- One round of the loop of `run`, on the event received.
unfoldable pub handle_event : Unix → IoEvent → Poller → Go Poller
unfolding handle_io_error handle_req handle_events
handle_event u x p =
    if is_some x.err
    then ret (handle_io_error u x p)
    else (elim x.pev [ [] ↦ handle_req u x.req p | pev ∷ pevs ↦ handle_events u (pev ∷ pevs) x p ])

-- `run` on the events that are received while the poller is running.
unfoldable pub run : Unix → List IoEvent → Poller → Go Poller
unfolding handle_event
run u [] p = ret p
run u (x ∷ xs) p = if p.running then (handle_event u x p >>= λ q. run u xs q) else ret p
