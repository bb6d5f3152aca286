-- ===== src/Epoller/Tests.antt =====
-- epoller/poller.go: the theorems at a poller that watches one socket.
use aionet.Common.{
  ℕ, ◌+◌, ◌≤◌, ◌≡◌, refl, true, false, Option, none, some, List, [], ◌∷◌, arith, errorf, ret,
  value_or,
}
use aionet.Epoller.{ReqRef, EpollEvent, IoEvent, IoRace, reply, Unix, ev_null, ev_read, ev_write}
use aionet.Epoller.Poller.{Poller, get_io_race, delete_by_fd}
use aionet.Epoller.Poller.Handle.{handle_event, run}
use aionet.Epoller.Poller.Wakeup.{wakeup, wakeup_is_refused}
use aionet.Epoller.Replies.{replies, waits}
use aionet.Epoller.Replies.Once.{queued, run_answers_once}

-- The constants of Linux, and a system that accepts every call.
abbrev linux : Unix
linux = record {
  epollin = 1;
  epollout = 4;
  epollerr = 8;
  epollhup = 16;
  epollrdnorm = 64;
  epollwrnorm = 256;
  epolloneshot = 1073741824;
  epollet = 2147483648;
  ctl_add = 1;
  ctl_del = 2;
  ctl_mod = 3;
  on_epoll_ctl = λ tr op fd events. none;
  on_close = λ tr fd. none;
  on_write = λ tr n. none;
  on_set_affinity = λ cpu. none;
}

abbrev race_of : ℕ → Option ℕ → List (ℕ × ℕ) → IoRace
race_of mode ch timers = record {
  armed = false;
  cid = "conn";
  ch = ch;
  dl_ref = 0;
  err = none;
  done_ch = some timers;
  mode = mode;
  ready = false;
  timed_at = 0;
}

-- The descriptor 5 is watched; `rd` waits to read and `wr` to write.
abbrev watching : IoRace → IoRace → Poller
watching r w = record {
  cpuid = none;
  efd = some 3;
  pfd = some 4;
  race = (5, record { rd = some r; wr = some w }) ∷ [];
  running = true;
  next_ch = 100;
  trace = [];
}

abbrev idle : Poller
idle = watching (race_of ev_read none []) (race_of ev_write none [])

abbrev ref_to : ℕ → ReqRef
ref_to mode = record { cid = "conn"; fd = 5; flags = 1; mode = mode; deadline = 0 }

abbrev event_on : ℕ → List EpollEvent → Option ℕ → IoEvent
event_on op pevs ch = record {
  dl_ref = 0;
  pev = pevs;
  err = none;
  req = record { ch = ch; op = op; ref = ref_to ev_read };
  timed_at = 0;
}

abbrev readable : EpollEvent
readable = record { events = 1; fd = 5 }

-- A read request on the channel 7, and the event that answers it.
abbrev one_read : List IoEvent
one_read = event_on 3 [] (some 7) ∷ event_on 0 (readable ∷ []) none ∷ []

one_read_runs : run linux one_read idle ≡ ret (value_or idle (run linux one_read idle))
unfolding run
one_read_runs = refl

run_answers_once_example :
    waits 7 (value_or idle (run linux one_read idle)).race
      + replies 7 (value_or idle (run linux one_read idle)).trace
    ≤ waits 7 idle.race + replies 7 idle.trace + queued 7 one_read
run_answers_once_example =
    run_answers_once 7 linux one_read idle (λ tr op fd events. refl) one_read_runs

wakeup_is_refused_example :
    handle_event linux ((wakeup linux idle 3 0 8).1) ((wakeup linux idle 3 0 8).0)
    ≡ ret (record idle {
      cpuid = some 0;
      trace = reply 8 (some (errorf "%s %s ioRace is undefined" [])) ∷ [];
    })
wakeup_is_refused_example =
    wakeup_is_refused linux idle 3 0 8 (λ e. ground (arith, e)) (λ e. ground (arith, e))
      (λ e. ground (arith, e)) (λ e. ground (arith, e)) refl

-- A reader on the channel 7 with one timer, whose channel is 50.
abbrev reader : IoRace
reader = race_of ev_read (some 7) ((1, 50) ∷ [])

-- A deadline of the reader that expires while nobody waits.
abbrev late_ref : ReqRef
late_ref = record (ref_to ev_read) { deadline = 77 }

idle_reader : get_io_race idle late_ref ≡ some (race_of ev_read none [])
unfolding get_io_race
idle_reader = refl

-- A writer waits on the channel 9 when the socket is closed; an event for it comes later.
abbrev writing : Poller
writing = watching (race_of ev_read none []) (race_of ev_write (some 9) [])

abbrev closed : Poller
closed = (delete_by_fd linux writing (ref_to ev_null)).0

abbrev after_close : List IoEvent
after_close = event_on 3 [] (some 7) ∷ []

after_close_runs :
    run linux after_close closed ≡ ret (value_or closed (run linux after_close closed))
unfolding run delete_by_fd
after_close_runs = refl
