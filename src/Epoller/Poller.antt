-- ===== src/Epoller/Poller.antt =====
-- epoller/poller.go: epoller, the goroutine that owns the races of all watched descriptors. A
-- handler takes the poller and returns it, and may panic. `run` is a fold over the events received
-- on `eventCh`.
pub mod Handle
pub mod Ready
pub mod Requests
pub mod Wakeup
pub mod Wait
use Prim.Native.String.{String}
use Prim.Native.Nat.{bit_or}
use aionet.Common.{
  lookup, remove, insert, ℕ, ◌+◌, Bool, true, false, not, ◌&&◌, Option, none, some, List, [], ◌∷◌,
  ◌==◌, leb, map, if◌then◌else◌, Error, errorf, hdp, is_some, Go, ret, panics, ◌>>=◌, ◌>>◌, deref,
  index,
}
use aionet.Epoller.{
  ReqRef, IoReq, EpollEvent, IoEvent, IoRace, Effect, reply, epoll_ctl, close_fd, write_count,
  start_timer, Trace, Unix, has, pev_reset, ev_read, ev_write, zero_time, is_deadline_exceeded,
  is_timeout_error, new_io_event, new_io_race,
}
use aionet.Epoller.Race.{
  cancel_deadlines, do_io_ready, do_io_timeout, new_done_ch, send_error, answer,
}

-- `[2]*ioRace`.
pub record Slots : Type 0 where
  pub rd : Option IoRace
  pub wr : Option IoRace

-- `next_ch` is the next channel to make.
pub record Poller : Type 0 where
  pub cpuid : Option ℕ
  pub efd : Option ℕ
  pub pfd : Option ℕ
  pub race : List (ℕ × Slots)
  pub running : Bool
  pub next_ch : ℕ
  pub trace : Trace

abbrev pub emit : Effect → Poller → Poller
emit e p = record p { trace = e ∷ p.trace }

-- `p.race[fd]`, two nil pointers when the key is missing.
abbrev pub slots : Poller → ℕ → Slots
slots p fd = elim (lookup fd p.race) [ none ↦ record { rd = none; wr = none } | some s ↦ s ]

abbrev pub is_write : ReqRef → Bool
is_write ref = ref.mode == ev_write

unfoldable pub get_io_race : Poller → ReqRef → Option IoRace
get_io_race p ref = if is_write ref then (slots p ref.fd).wr else (slots p ref.fd).rd

-- The race that `get_io_race` found, after a change through its pointer, and the trace.
abbrev pub put_io_race : Poller → ReqRef → IoRace × Trace → Poller
put_io_race p ref (r, tr) = record p {
  race =
      insert ref.fd
        (if is_write ref
          then record (slots p ref.fd) { wr = some r }
          else record (slots p ref.fd) { rd = some r })
        p.race;
  trace = tr;
}

abbrev pub undefined_race : Error
undefined_race = errorf "%s ioRace is undefined" []

unfoldable pub cancel_io : Poller → IoReq → Poller × Option Error
unfolding get_io_race cancel_deadlines
cancel_io p req = elim (get_io_race p req.ref) [
  | none ↦ (p, some (errorf "%s %s ioRace is undefined" []))
  | some r ↦
      if is_some r.err
      then (p, r.err)
      else (put_io_race p req.ref (cancel_deadlines none (r, p.trace)), none)
]

abbrev is_zero : Option ℕ → Bool
is_zero none = false
is_zero (some n) = n == 0

unfoldable pub check_affinity : Unix → Poller → Poller × Bool
check_affinity u p = if is_zero p.cpuid then (p, false) else (elim (u.on_set_affinity p.cpuid) [
  | some e ↦ (p, false)
  | none ↦ (record p { cpuid = none }, true)
])

-- The first part of deleteByFd.
unfoldable pub cancel_by_fd : Poller → ReqRef → Poller
unfolding get_io_race cancel_deadlines
cancel_by_fd p ref = elim (get_io_race p ref) [
  | none ↦ p
  | some r ↦ put_io_race p ref (cancel_deadlines (some (hdp 16)) (r, p.trace))
]

unfoldable pub delete_by_fd : Unix → Poller → ReqRef → Poller × Option Error
unfolding cancel_by_fd
delete_by_fd u p ref =
    let q = cancel_by_fd p ref in
    (emit (close_fd ref.fd) (record q { race = remove ref.fd q.race }), u.on_close q.trace ref.fd)

-- `unix.EpollCtl(p.pfd, op, fd, events)`.
abbrev pub control : Unix → Poller → ℕ → ℕ → ℕ → Poller × Option Error
control u p op fd events = (emit (epoll_ctl op fd events) p, u.on_epoll_ctl p.trace op fd events)

abbrev pub one_shot : Unix → ℕ → ℕ
one_shot u flags = bit_or (bit_or u.epolloneshot u.epollet) flags

-- `ch <- err` on a channel that SubmitIoReq made, with room for one error.
abbrev pub send_to : Option ℕ → Option Error → Trace → Trace
send_to none err tr = tr
send_to (some c) err tr = reply c err ∷ tr

unfoldable pub rearm : Unix → Poller → ReqRef → Option ℕ → Poller × Option Error
unfolding get_io_race
rearm u p ref ch = elim (get_io_race p ref) [
  | none ↦ (p, some undefined_race)
  | some r ↦
      if is_some r.err
      then (put_io_race p ref (record r { ready = false }, send_to ch r.err p.trace), none)
      else if r.ready
      then (put_io_race p ref (record r { ready = false }, send_to ch none p.trace), none)
      else (let (q, err) = control u p u.ctl_mod ref.fd (one_shot u ref.flags) in
          (put_io_race q ref (record r { ch = ch; armed = true }, q.trace), err))
]

unfoldable pub rearm1 : Unix → Poller → ℕ → ℕ → Poller × Option Error
rearm1 u p fd mode = control u p u.ctl_mod fd (
    if mode == ev_read
    then one_shot u u.epollin
    else if mode == ev_write
    then one_shot u u.epollout
    else bit_or u.epolloneshot u.epollet)

-- The body of handleIoReady for one side whose flag is among the events.
unfoldable pub on_ready : IoEvent → IoRace × Trace → IoRace × Trace
unfolding do_io_ready
on_ready ev (r, tr) =
    let (r', tr') =
      (if is_some r.ch
        then do_io_ready (record r { timed_at = ev.timed_at }, tr)
        else (record r { ready = true }, tr)) in
    (record r' { armed = false }, tr')
