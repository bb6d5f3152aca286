-- ===== src/Epoller/Replies.antt =====
-- epoller/poller.go: who is still to be answered. For a channel `c`, `owed` counts the requests
-- that wait with `c` in a race and the replies sent to `c` so far.
pub mod Handlers
pub mod Once
use aionet.Common.{
  lookup, remove, insert, ℕ, ◌+◌, ◌≡◌, refl, ◌≤◌, Bool, true, false, Option, none, some, List, [],
  ◌∷◌, ◌==◌, arith, ap, ◌∙◌, if◌then◌else◌, Error, is_some, Option-cases, inl, inr,
}
use aionet.Epoller.{
  ReqRef, IoReq, IoEvent, IoRace, Effect, reply, close_ch, start_timer, epoll_ctl, close_fd,
  write_count, Trace, ev_write,
}
use aionet.Epoller.Race.{
  cancel_deadline, cancel_each, cancel_deadlines, delete_result_ch, do_io_ready, do_io_timeout,
  answer, new_done_ch, send_error,
}
use aionet.Epoller.Poller.{Slots, Poller, slots, get_io_race, put_io_race, on_ready}

-- 1 when the channel is `c`.
abbrev pub waiting : ℕ → Option ℕ → ℕ
waiting c none = 0
waiting c (some k) = if k == c then 1 else 0

abbrev pub replies : ℕ → Trace → ℕ
replies c [] = 0
replies c (reply k err ∷ tr) = waiting c (some k) + replies c tr
replies c (_ ∷ tr) = replies c tr

abbrev pub race_waits : ℕ → Option IoRace → ℕ
race_waits c none = 0
race_waits c (some r) = waiting c r.ch

abbrev pub slot_waits : ℕ → Slots → ℕ
slot_waits c s = race_waits c s.rd + race_waits c s.wr

abbrev pub waits : ℕ → List (ℕ × Slots) → ℕ
waits c [] = 0
waits c ((k, s) ∷ m) = slot_waits c s + waits c m

abbrev pub owed : ℕ → Poller → ℕ
owed c p = waits c p.race + replies c p.trace

-- One race and the trace.
abbrev pub debt : ℕ → IoRace × Trace → ℕ
debt c (r, tr) = waiting c r.ch + replies c tr

debt-cancel_deadline : (c k : ℕ) (s : IoRace × Trace) → debt c (cancel_deadline k s) ≡ debt c s
unfolding cancel_deadline
debt-cancel_deadline c k (r, tr) = ground arith

debt-answer : (c : ℕ) (err : Option Error) (s : IoRace × Trace) → debt c (answer err s) ≡ debt c s
unfolding delete_result_ch
debt-answer c err (r, tr) = ground arith

debt-cancel_each :
    (c : ℕ) (m : List (ℕ × ℕ)) (s : IoRace × Trace) → debt c (cancel_each m s) ≡ debt c s
unfolding cancel_each
debt-cancel_each c [] s = refl
debt-cancel_each c ((k, ch) ∷ m) s =
    debt-cancel_each c m (cancel_deadline k s) ∙ debt-cancel_deadline c k s

pub debt-cancel_deadlines :
    (c : ℕ) (err : Option Error) (s : IoRace × Trace) → debt c (cancel_deadlines err s) ≡ debt c s
unfolding cancel_deadlines
debt-cancel_deadlines c err (r, tr) = elim (Option-cases r.done_ch) [
  | inl e ↦ ground arith
  | inr (m, e) ↦ ground (
    arith,
    debt-answer c err (cancel_each m (record r { err = err }, tr)),
    debt-cancel_each c m (record r { err = err }, tr),
  )
]

debt-do_io_ready : (c : ℕ) (s : IoRace × Trace) → debt c (do_io_ready s) ≡ debt c s
unfolding do_io_ready
debt-do_io_ready c (r, tr) =
    debt-answer c none (cancel_deadlines none (record r { err = none; ready = false }, tr))
    ∙ debt-cancel_deadlines c none (record r { err = none; ready = false }, tr)

pub debt-do_io_timeout :
    (c : ℕ) (ev : IoEvent) (s : IoRace × Trace) → debt c (do_io_timeout ev s) ≡ debt c s
unfolding do_io_timeout
debt-do_io_timeout c ev (r, tr) = ground (
  arith,
  debt-answer c ev.err (cancel_deadline ev.dl_ref (record r { err = ev.err }, tr)),
  debt-cancel_deadline c ev.dl_ref (record r { err = ev.err }, tr),
)

pub debt-on_ready : (c : ℕ) (ev : IoEvent) (s : IoRace × Trace) → debt c (on_ready ev s) ≡ debt c s
unfolding on_ready
debt-on_ready c ev (r, tr) =
    ground (arith, debt-do_io_ready c (record r { timed_at = ev.timed_at }, tr))

-- Replacing the entry of a key.
pub waits-insert :
    (c k : ℕ) (s : Slots) (m : List (ℕ × Slots))
    → waits c (insert k s m)
        + slot_waits c (elim (lookup k m) [ none ↦ record { rd = none; wr = none } | some t ↦ t ])
      ≡ waits c m + slot_waits c s
waits-insert c k s [] = omega arith
waits-insert c k s ((j, t) ∷ m) = ground (arith, waits-insert c k s m)

pub waits-remove : (c k : ℕ) (m : List (ℕ × Slots)) → waits c (remove k m) ≤ waits c m
waits-remove c k [] = omega arith
waits-remove c k ((j, t) ∷ m) = ground (arith, waits-remove c k m)

-- A race may be put back when its debt does not exceed what was owed on it, up to `extra`.
pub owed-put_io_race :
    (c extra : ℕ) (p : Poller) (ref : ReqRef) (r : IoRace) (s : IoRace × Trace)
    → get_io_race p ref ≡ some r
    → debt c s ≤ debt c (r, p.trace) + extra
    → owed c (put_io_race p ref s) ≤ owed c p + extra
unfolding get_io_race
owed-put_io_race c extra p ref r (r', tr) e h = ground (
  arith,
  waits-insert c ref.fd (record (slots p ref.fd) { wr = some r' }) p.race,
  waits-insert c ref.fd (record (slots p ref.fd) { rd = some r' }) p.race,
)
