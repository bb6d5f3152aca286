-- ===== src/Epoller.antt =====
-- epoller/poller.go, epoller/base.go: the data that the poller's goroutine works on.
-- A `chan error` is a number. What the code does beside its state is a trace, newest first: replies
-- that it sends (also from a goroutine of its own, which gives up after a while when nobody
-- receives), channels that it closes, timers that it starts and system calls.
-- A `time.Time` is a number, `zeroTime` is 0; a file descriptor is a number, -1 is `none`.
pub mod Race
pub mod Poller
pub mod Errors
pub mod Events
pub mod Submit
pub mod Replies
mod Tests
use Prim.Native.Nat.{bit_and, bit_or}
use Prim.Native.String.{String}
use aionet.Common.{
  ℕ, Bool, true, false, not, Option, none, some, List, [], ◌∷◌, ◌==◌, if◌then◌else◌, Error, hdp,
  deadline_exceeded,
}

-- `ioMode`.
abbrev pub ev_null : ℕ
ev_null = 0

abbrev pub ev_read : ℕ
ev_read = 2

abbrev pub ev_write : ℕ
ev_write = 5

abbrev pub zero_time : ℕ
zero_time = 0

pub record ReqRef : Type 0 where
  pub cid : String
  pub fd : ℕ
  pub flags : ℕ
  pub mode : ℕ
  pub deadline : ℕ

-- `aux` is never read.
pub record IoReq : Type 0 where
  pub ch : Option ℕ
  pub op : ℕ
  pub ref : ReqRef

-- `unix.EpollEvent`.
pub record EpollEvent : Type 0 where
  pub events : ℕ
  pub fd : ℕ

pub record IoEvent : Type 0 where
  pub dl_ref : ℕ  -- uint16
  pub pev : List EpollEvent
  pub err : Option Error
  pub req : IoReq
  pub timed_at : ℕ

-- `done_ch` maps a deadline's number to the channel that stops its timer; `none` is a nil map.
pub record IoRace : Type 0 where
  pub armed : Bool
  pub cid : String
  pub ch : Option ℕ
  pub dl_ref : ℕ  -- uint16
  pub err : Option Error
  pub done_ch : Option (List (ℕ × ℕ))
  pub mode : ℕ
  pub ready : Bool
  pub timed_at : ℕ

pub data Effect : Type 0 where
  -- `ch <- err`
  reply : ℕ → Option Error → Effect
  close_ch : ℕ → Effect
  -- a goroutine that submits the event at the deadline, unless the channel is closed before
  start_timer : ℕ → IoEvent → Effect
  -- unix.EpollCtl: operation, descriptor, events
  epoll_ctl : ℕ → ℕ → ℕ → Effect
  -- unix.Close
  close_fd : ℕ → Effect
  -- unix.Write of a count to the eventfd
  write_count : ℕ → Effect

abbrev pub Trace : Type 0
Trace = List Effect

-- `golang.org/x/sys/unix` as far as the poller uses it: constants, and the answers of the system,
-- any function of what was done before and of the call.
pub record Unix : Type 0 where
  pub epollin : ℕ
  pub epollout : ℕ
  pub epollerr : ℕ
  pub epollhup : ℕ
  pub epollrdnorm : ℕ
  pub epollwrnorm : ℕ
  pub epolloneshot : ℕ
  pub epollet : ℕ
  pub ctl_add : ℕ
  pub ctl_del : ℕ
  pub ctl_mod : ℕ
  pub on_epoll_ctl : Trace → ℕ → ℕ → ℕ → Option Error
  pub on_close : Trace → ℕ → Option Error
  pub on_write : Trace → ℕ → Option Error
  pub on_set_affinity : Option ℕ → Option Error

-- `events&flag != 0`.
abbrev pub has : ℕ → ℕ → Bool
has events flag = not (bit_and events flag == 0)

-- `PEV_RESET`.
abbrev pub pev_reset : Unix → ℕ
pev_reset u = bit_or u.epollrdnorm u.epollwrnorm

-- `errors.Is(err, os.ErrDeadlineExceeded)`.
abbrev pub is_deadline_exceeded : Option Error → Bool
is_deadline_exceeded (some deadline_exceeded) = true
is_deadline_exceeded _ = false

abbrev pub hdp_code : Option Error → Option ℕ
hdp_code (some (hdp c)) = some c
hdp_code _ = none

-- `errors.Is(err, VErrTimeout)`: HdpError.Is compares the codes.
abbrev pub is_timeout_error : Option Error → Bool
is_timeout_error e = elim (hdp_code e) [ some c ↦ c == 14 | none ↦ false ]

-- newIoEvent; the codes are those of epoller/const.go.
unfoldable pub new_io_event : ReqRef → ℕ → List EpollEvent → IoEvent
new_io_event ref dl_ref pev = record {
  dl_ref = dl_ref;
  pev = pev;
  err = if ref.deadline == zero_time then some (hdp 13) else some deadline_exceeded;
  req = record { ch = none; op = 0; ref = ref };
  timed_at = zero_time;
}

unfoldable pub new_io_race : String → ℕ → IoRace
new_io_race cid mode = record {
  armed = false;
  cid = cid;
  ch = none;
  dl_ref = 0;
  err = none;
  done_ch = some [];
  mode = mode;
  ready = false;
  timed_at = zero_time;
}
