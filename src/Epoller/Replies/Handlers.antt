-- ===== src/Epoller/Replies/Handlers.antt =====
-- epoller/poller.go: what each handler does to the number owed to a channel.
use aionet.Common.{
  insert, ℕ, ◌+◌, ◌≡◌, ◌≤◌, true, false, Option, none, some, List, [], ◌∷◌, arith, if◌then◌else◌,
  Error, is_some, Option-cases, inl, inr, ret, hdp, u16, get_elem?,
}
use aionet.Epoller.{
  ReqRef, IoReq, IoEvent, EpollEvent, IoRace, Trace, Unix, epoll_ctl, start_timer, new_io_event,
  is_timeout_error, zero_time, ev_read, new_io_race, ev_write,
}
use aionet.Epoller.Race.{cancel_deadlines, do_io_timeout}
use aionet.Epoller.Poller.{
  Poller, get_io_race, cancel_io, cancel_by_fd, delete_by_fd, rearm, send_to, one_shot,
}
use aionet.Epoller.Poller.Handle.{
  handle_timeout, handle_timeouts, handle_io_error, others, race_deadline, reset_io_ready, watch,
  split_bar,
}
use aionet.Epoller.Replies.{
  waiting, owed, debt-cancel_deadlines, debt-do_io_timeout, waits-insert, waits-remove,
  owed-put_io_race,
}

-- The system never refuses an epoll_ctl call.
abbrev pub Accepts : Unix → Type 0
Accepts u = (tr : Trace) (op fd events : ℕ) → u.on_epoll_ctl tr op fd events ≡ none

pub owed-cancel_io : (c : ℕ) (p : Poller) (req : IoReq) → owed c (cancel_io p req).0 ≤ owed c p
unfolding cancel_io
owed-cancel_io c p req = elim (Option-cases (get_io_race p req.ref)) [
  | inl e ↦ ground arith
  | inr (r, e) ↦ ground (
    arith,
    debt-cancel_deadlines c none (r, p.trace),
    owed-put_io_race c 0 p req.ref r (cancel_deadlines none (r, p.trace)) e,
  )
]

pub owed-cancel_by_fd : (c : ℕ) (p : Poller) (ref : ReqRef) → owed c (cancel_by_fd p ref) ≤ owed c p
unfolding cancel_by_fd
owed-cancel_by_fd c p ref = elim (Option-cases (get_io_race p ref)) [
  | inl e ↦ ground arith
  | inr (r, e) ↦ ground (
    arith,
    debt-cancel_deadlines c (some (hdp 16)) (r, p.trace),
    owed-put_io_race c 0 p ref r (cancel_deadlines (some (hdp 16)) (r, p.trace)) e,
  )
]

pub owed-delete_by_fd :
    (c : ℕ) (u : Unix) (p : Poller) (ref : ReqRef) → owed c (delete_by_fd u p ref).0 ≤ owed c p
unfolding delete_by_fd
owed-delete_by_fd c u p ref =
    omega (arith, owed-cancel_by_fd c p ref, waits-remove c ref.fd (cancel_by_fd p ref).race)

pub owed-reset_io_ready :
    (c : ℕ) (p : Poller) (ref : ReqRef) → owed c (reset_io_ready p ref) ≤ owed c p
unfolding reset_io_ready
owed-reset_io_ready c p ref = elim (Option-cases (get_io_race p ref)) [
  | inl e ↦ ground arith
  | inr (r, e) ↦
      ground
        (arith, owed-put_io_race c 0 p ref r (record r { ready = false; armed = false }, p.trace) e)
]

pub owed-handle_timeout :
    (c : ℕ) (u : Unix) (pev : EpollEvent) (ev : IoEvent) (p : Poller)
    → owed c (handle_timeout u pev ev p) ≤ owed c p
unfolding handle_timeout
owed-handle_timeout c u pev ev p = elim (Option-cases (get_io_race p ev.req.ref)) [
  | inl e ↦ ground arith
  | inr (r, e) ↦ ground (
    arith,
    debt-do_io_timeout c ev (r, p.trace),
    owed-put_io_race c 0 p ev.req.ref r (do_io_timeout ev (r, p.trace)) e,
  )
]

pub owed-handle_timeouts :
    (c : ℕ) (u : Unix) (pevs : List EpollEvent) (ev : IoEvent) (p : Poller)
    → owed c (handle_timeouts u pevs ev p) ≤ owed c p
unfolding handle_timeouts
owed-handle_timeouts c u [] ev p = omega arith
owed-handle_timeouts c u (pev ∷ pevs) ev p = omega (
  arith,
  owed-handle_timeout c u pev ev p,
  owed-handle_timeouts c u pevs ev (handle_timeout u pev ev p),
)

pub owed-handle_io_error :
    (c : ℕ) (u : Unix) (ev : IoEvent) (p : Poller) → owed c (handle_io_error u ev p) ≤ owed c p
unfolding handle_io_error
owed-handle_io_error c u ev p = ground (arith, owed-handle_timeouts c u ev.pev ev p)

-- With its reply left to it, rearm owes at most one more on the request's channel; otherwise
-- nothing more.
pub owed-rearm :
    (c : ℕ) (u : Unix) (p : Poller) (ref : ReqRef) (ch : Option ℕ)
    → Accepts u
    → owed c (rearm u p ref ch).0 + (if is_some (rearm u p ref ch).1 then waiting c ch else 0)
      ≤ owed c p + waiting c ch
unfolding rearm
owed-rearm c u p ref ch ok = elim (Option-cases (get_io_race p ref)) [
  | inl e ↦ ground arith
  | inr (r, e) ↦ ground (
    arith,
    ok p.trace u.ctl_mod ref.fd (one_shot u ref.flags),
    owed-put_io_race c (waiting c ch) p ref r (record r { ready = false }, send_to ch r.err p.trace)
        e,
    owed-put_io_race c (waiting c ch) p ref r (record r { ready = false }, send_to ch none p.trace)
        e,
    owed-put_io_race c (waiting c ch) p ref r
        (
          record r { ch = ch; armed = true },
          epoll_ctl u.ctl_mod ref.fd (one_shot u ref.flags) ∷ p.trace,
        )
        e,
  )
]

-- The race and the trace after raceDeadline.
abbrev timed : Poller → ReqRef → IoRace → List (ℕ × ℕ) → IoRace × Trace
timed p ref r m =
    let dl_ref = u16 (r.dl_ref + 1) in
    (
      record r {
        err = if is_timeout_error r.err then none else r.err;
        timed_at = zero_time;
        dl_ref = dl_ref;
        done_ch = some (insert dl_ref p.next_ch m);
      },
      start_timer p.next_ch
            (new_io_event ref dl_ref (record { events = ref.flags; fd = ref.fd } ∷ []))
          ∷ p.trace,
    )

pub owed-race_deadline :
    (c : ℕ) (p q : Poller) (ref : ReqRef) (err : Option Error)
    → race_deadline p ref ≡ ret (q, err)
    → owed c q ≤ owed c p
unfolding race_deadline
owed-race_deadline c p q ref err h = elim (Option-cases (get_io_race p ref)) [
  | inl e ↦ ground arith
  | inr (r, e) ↦ elim (Option-cases r.done_ch) [
    | inl d ↦ ground arith
    | inr (m, d) ↦ ground (arith, owed-put_io_race c 0 p ref r (timed p ref r m) e)
  ]
]

pub owed-others :
    (c : ℕ) (u : Unix) (p : Poller) (req : IoReq) → owed c (others u p req).0 ≤ owed c p
unfolding others
owed-others c u p req = ground arith

pub owed-watch :
    (c : ℕ) (u : Unix) (p q : Poller) (ref : ReqRef) (err : Option Error)
    → watch u p ref ≡ ret (q, err)
    → owed c q ≤ owed c p
unfolding watch new_io_race
owed-watch c u p q ref err h = elim (Option-cases (get_elem? (split_bar ref.cid) 0)) [
  | inl e ↦ ground arith
  | inr (x, e) ↦ elim (Option-cases (get_elem? (split_bar ref.cid) 1)) [
    | inl f ↦ ground arith
    | inr (y, f) ↦ ground (
      arith,
      waits-insert c ref.fd
          (record { rd = some (new_io_race x ev_read); wr = some (new_io_race y ev_write) }) p.race,
    )
  ]
]
