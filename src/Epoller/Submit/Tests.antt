-- ===== src/Epoller/Submit/Tests.antt =====
-- epoller/base.go and base.go: the theorems at a socket that waits to read.
use aionet.Common.{
  ◌⊎◌, ℕ, ◌≡◌, refl, true, false, none, some, is_some, [], ◌∷◌, arith, ret, Error, ascii,
}
use aionet.EventMap.{HdpEvent, value, integer, int, string}
use aionet.Epoller.{IoRace, reply, Unix, ev_read, ev_write}
use aionet.Epoller.Poller.{Poller, get_io_race, put_io_race, one_shot}
use aionet.Epoller.Poller.Handle.{handle_event, handle_io_ready}
use aionet.Epoller.Poller.Wait.{event_of}
use aionet.Epoller.Race.Laws.{closing}
use aionet.Epoller.Submit.Woken.{waiter_is_woken}
use aionet.Epoller.Submit.{
  Views, cid_key, fd_key, flags_key, mode_key, deadline_key, read_key, read_keys, no_ref,
  int_or_zero, string_or_empty, time_or_zero, submit_io_req, wait_io_ready,
}
use aionet.Epoller.Submit.Reads.{read_keys_lem}
use aionet.Epoller.Submit.Waits.{interest, waits_for, asked, armed_with, wait_io_ready_cases}

abbrev linux : Unix
linux = record {
  epollin = 1;
  epollout = 4;
  epollerr = 8;
  epollhup = 16;
  epollrdnorm = 64;
  epollwrnorm = 256;
  epolloneshot = 1073741824;
  epollet = 2147483648;
  ctl_add = 1;
  ctl_del = 2;
  ctl_mod = 3;
  on_epoll_ctl = λ tr op fd events. none;
  on_close = λ tr fd. none;
  on_write = λ tr n. none;
  on_set_affinity = λ cpu. none;
}

abbrev plain : Views
plain = record { text = λ t. "conn"; instant = λ n a. n; out_of_range = λ t x. 0 }

-- The mode comes before the descriptor, the flags have a wrong type, and there is no deadline.
abbrev mixed : HdpEvent
mixed =
    (mode_key, integer int 1)
    ∷ (cid_key, string (ascii "conn"))
    ∷ (fd_key, integer int 5)
    ∷ (flags_key, string (ascii "none"))
    ∷ []

read_keys_lem_example : read_keys plain mixed no_ref ≡ record {
  cid = string_or_empty plain (value cid_key mixed);
  fd = int_or_zero (value fd_key mixed);
  flags = int_or_zero (value flags_key mixed);
  mode = int_or_zero (value mode_key mixed);
  deadline = time_or_zero plain (value deadline_key mixed);
}
unfolding cid_key fd_key flags_key mode_key
read_keys_lem_example = read_keys_lem plain mixed (refl, (refl, (refl, (refl, tt))))

mixed_read :
    read_keys plain mixed no_ref
    ≡ record { cid = "conn"; fd = 5; flags = 0; mode = 1; deadline = 0 }
unfolding read_keys read_key cid_key fd_key flags_key mode_key deadline_key
mixed_read = refl

abbrev race_of : ℕ → IoRace
race_of mode = record {
  armed = false;
  cid = "conn";
  ch = none;
  dl_ref = 0;
  err = none;
  done_ch = some [];
  mode = mode;
  ready = true;
  timed_at = 0;
}

abbrev watching : Poller
watching = record {
  cpuid = none;
  efd = some 3;
  pfd = some 4;
  race = (5, record { rd = some (race_of ev_read); wr = some (race_of ev_write) }) ∷ [];
  running = true;
  next_ch = 100;
  trace = [];
}

wait_io_ready_cases_example :
    let r = race_of ev_read in
    let ref = waits_for linux plain (ascii "conn") 5 ev_read in
    let after =
      handle_event linux
        (submit_io_req plain 7 (wait_io_ready linux (ascii "conn") 5 ev_read))
        watching in
    let answer = linux.on_epoll_ctl [] 3 5 (one_shot linux (interest linux ev_read)) in
    ((is_some r.err ≡ true)
      × (after ≡ ret (put_io_race watching ref (record r { ready = false }, reply 7 r.err ∷ []))))
    ⊎ ((is_some r.err ≡ false)
        × (r.ready ≡ true)
        × (after ≡ ret (put_io_race watching ref (record r { ready = false }, reply 7 none ∷ []))))
    ⊎ ((is_some r.err ≡ false)
        × (r.ready ≡ false)
        × (answer ≡ none)
        × (after ≡ ret (armed_with linux 7 ref r (asked linux ref watching) watching)))
    ⊎ ((e : Error) × (is_some r.err ≡ false)
        × (r.ready ≡ false)
        × (answer ≡ some e)
        × (after
            ≡ ret
                (armed_with linux 7 ref r (reply 7 (some e) ∷ asked linux ref watching) watching)))
unfolding get_io_race
wait_io_ready_cases_example =
    wait_io_ready_cases linux plain 7 (ascii "conn") 5 ev_read watching (race_of ev_read)
      (λ e. ground (arith, e)) (λ e. ground (arith, e)) refl refl

abbrev idle : Poller
idle = record watching {
  race =
      (
        5,
        record {
          rd = some (record (race_of ev_read) { ready = false; done_ch = some ((1, 50) ∷ []) });
          wr = some (race_of ev_write);
        },
      )
      ∷ [];
}

abbrev quiet : IoRace
quiet = record (race_of ev_read) { ready = false; done_ch = some ((1, 50) ∷ []) }

waiter_is_woken_example :
    let ref = waits_for linux plain (ascii "conn") 5 ev_read in
    (p1 q : Poller) × (handle_event linux
        (submit_io_req plain 7 (wait_io_ready linux (ascii "conn") 5 ev_read))
        idle
      ≡ ret p1)
    × (p1.trace ≡ asked linux ref idle)
    × (handle_io_ready linux (record { events = 1; fd = 5 }) (event_of none []) p1 ≡ ret q)
    × (q.trace ≡ reply 7 none ∷ closing ((1, 50) ∷ []) (asked linux ref idle))
waiter_is_woken_example =
    waiter_is_woken linux plain 7 (ascii "conn") 5 1 (event_of none []) idle quiet
      (race_of ev_write) ((1, 50) ∷ []) (λ e. ground (arith, e)) (λ e. ground (arith, e)) refl refl
      refl refl refl (tt, tt) refl refl refl refl refl
