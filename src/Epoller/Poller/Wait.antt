-- ===== src/Epoller/Poller/Wait.antt =====
-- epoller/poller.go: epollWait, the goroutine that waits for the system's events and passes them to
-- run, shutdown, which ends run, and of epoller/base.go newEPoller and Stop.
pub mod Passes
mod Tests
use Prim.Native.Nat.{bit_or}
use aionet.Common.{
  ℕ, suc, Bool, true, false, not, ◌+◌, ◌≡◌, ◌==◌, if◌then◌else◌, List, [], ◌∷◌, ◌++◌, length,
  Option, none, some, Error, errno, errorf, ◌⊎◌, inl, inr,
}
use aionet.Epoller.{ReqRef, IoReq, EpollEvent, IoEvent, epoll_ctl, close_fd, Trace, Unix, zero_time}
use aionet.Epoller.Events.{EventBuffer, new_buffer, resize}
use aionet.Epoller.Poller.{Poller, emit}
use aionet.Epoller.Poller.Handle.{is_efd}

-- What unix.EpollWait returns.
pub data Answer : Type 0 where
  events : List EpollEvent → Answer
  failed : Error → Answer

-- The poller, which run shares, the event buffer, the events sent to run, and the number of reads
-- of the eventfd, whose results are dropped.
pub record Waiter : Type 0 where
  pub poller : Poller
  pub buffer : EventBuffer
  pub sent : List IoEvent
  pub reads : ℕ

abbrev pub no_req : IoReq
no_req = record {
  ch = none;
  op = 0;
  ref = record { cid = ""; fd = 0; flags = 0; mode = 0; deadline = zero_time };
}

abbrev pub event_of : Option Error → List EpollEvent → IoEvent
event_of err pev = record { dl_ref = 0; pev = pev; err = err; req = no_req; timed_at = zero_time }

abbrev pub is_zero : Option ℕ → Bool
is_zero none = false
is_zero (some n) = n == 0

abbrev pub is_eintr : Error → Bool
is_eintr (errno n) = n == 4
is_eintr e = false

-- The events of a wait: one of the eventfd is read, and stops both loops when the poller is shut
-- down.
unfoldable pub check_wakeup : List EpollEvent → Waiter → Waiter
check_wakeup [] w = w
check_wakeup (ev ∷ evs) w = check_wakeup evs (
    if is_efd w.poller ev.fd
    then record w {
      reads = suc w.reads;
      poller = if is_zero w.poller.cpuid then record w.poller { running = false } else w.poller;
    }
    else w)

-- A round of the loop whose wait gave these events.
unfoldable pub pass_events : List EpollEvent → Waiter → Waiter
unfolding check_wakeup resize
pass_events evs w =
    let w1 = check_wakeup evs w in
    record w1 { sent = w1.sent ++ (event_of none evs ∷ []); buffer = resize w1.buffer (length evs) }

-- The loop of `epollWait`, over what its waits return.
unfoldable pub wait_loop : List Answer → Waiter → Waiter
unfolding pass_events
wait_loop [] w = w
wait_loop (events evs ∷ rest) w =
    let again = wait_loop rest (pass_events evs w) in if w.poller.running then again else w
wait_loop (failed e ∷ rest) w =
    let again = wait_loop rest w in
    if not w.poller.running
    then w
    else if is_eintr e
    then again
    else record w { sent = w.sent ++ (event_of (some e) [] ∷ []) }

-- `epollWait`.
unfoldable pub epoll_wait : List Answer → Poller → Waiter
unfolding new_buffer wait_loop
epoll_wait rest p =
    wait_loop rest (record { poller = p; buffer = new_buffer; sent = []; reads = 0 })

-- `shutdown`: the eventfd is not closed.
unfoldable pub shutdown : Poller → Poller
shutdown p = elim p.pfd [
  | none ↦ record p { efd = none }
  | some fd ↦ record (emit (close_fd fd) p) { pfd = none; efd = none }
]

-- `Stop`, with the event that it sends.
unfoldable pub stop : Poller → Poller × IoEvent
stop p = (record p { running = false }, event_of none [])

-- `newEPoller`, by what EpollCreate1, eventfd2 and epoll_ctl return: an error, or the poller.
unfoldable pub new_epoller : Unix → Error ⊎ ℕ → Error ⊎ ℕ → Option Error → (Error ⊎ Poller) × Trace
new_epoller u (inl e) r c = (inl (errorf "poller creation error : %v" []), [])
new_epoller u (inr fd) (inl e) c =
    (inl (errorf "poller set non-blocking eventFd unix error : %v" []), close_fd fd ∷ [])
new_epoller u (inr fd) (inr r) (some e) = (
  inl (errorf "adding eventFd for reading failed : %v" []),
  close_fd r ∷ close_fd fd ∷ epoll_ctl u.ctl_add r (bit_or u.epollin u.epollet) ∷ [],
)
new_epoller u (inr fd) (inr r) none = (
  inr (record {
    cpuid = none;
    efd = some r;
    pfd = some fd;
    race = [];
    running = false;
    next_ch = 0;
    trace = [];
  }),
  epoll_ctl u.ctl_add r (bit_or u.epollin u.epollet) ∷ [],
)
