-- ===== src/Epoller/Poller/Wait/Tests.antt =====
-- epoller/poller.go: the loop of epollWait at three waits.
use aionet.Common.{none, false, ◌≡◌, refl, true, some, List, [], ◌∷◌, length, errno}
use aionet.Epoller.Events.Bounds.{InBounds}
use aionet.Epoller.Poller.{Poller}
use aionet.Epoller.Poller.Wait.{
  Answer, events, failed, check_wakeup, pass_events, wait_loop, epoll_wait, event_of,
}
use aionet.Epoller.Poller.Wait.Passes.{Untimed, served, sent_for_all, epoll_wait_passes}

abbrev running_poller : Poller
running_poller = record {
  cpuid = some 1;
  efd = some 3;
  pfd = some 4;
  race = [];
  running = true;
  next_ch = 0;
  trace = [];
}

-- A readable socket, a wait that a signal interrupts, and one that fails.
abbrev three_waits : List Answer
three_waits = events (record { fd = 5; events = 1 } ∷ []) ∷ failed (errno 4) ∷ failed (errno 9) ∷ []

three_waits_sent : length (epoll_wait three_waits running_poller).sent ≡ 2
unfolding epoll_wait wait_loop pass_events check_wakeup
three_waits_sent = refl

-- A wakeup of a poller that was shut down ends the loop.
abbrev wakeups : List Answer
wakeups =
    events (record { fd = 3; events = 1 } ∷ []) ∷ events (record { fd = 5; events = 1 } ∷ []) ∷ []

wakeup_ends : length (epoll_wait wakeups (record running_poller { cpuid = some 0 })).sent ≡ 1
unfolding epoll_wait wait_loop pass_events check_wakeup
wakeup_ends = refl

epoll_wait_passes_example :
    ((epoll_wait three_waits running_poller).sent
      ≡ event_of none (record { fd = 5; events = 1 } ∷ []) ∷ event_of (some (errno 9)) [] ∷ [])
    × Untimed (epoll_wait three_waits running_poller).sent
    × InBounds (epoll_wait three_waits running_poller).buffer
epoll_wait_passes_example = epoll_wait_passes three_waits running_poller

-- No wait after the wakeup, and none of a poller that does not run.
ends_at_once :
    (sent_for_all (served (record running_poller { cpuid = some 0 }) wakeups)
      ≡ event_of none (record { fd = 3; events = 1 } ∷ []) ∷ [])
    × (sent_for_all (served (record running_poller { running = false }) three_waits) ≡ [])
ends_at_once = (refl, refl)
