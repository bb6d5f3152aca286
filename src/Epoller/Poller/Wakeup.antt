-- ===== src/Epoller/Poller/Wakeup.antt =====
-- epoller/poller.go: wakeup, through which Close and SetAffinity ask the poller to stop or to move.
use aionet.Common.{
  ℕ, ◌≡◌, ◌≢◌, Option, none, some, [], ◌∷◌, arith, leb, lookup, if◌then◌else◌, Error, errorf, ret,
}
use aionet.Epoller.{ReqRef, IoEvent, reply, Unix, ev_null, zero_time}
use aionet.Epoller.Race.{send_error}
use aionet.Epoller.Poller.{Poller, get_io_race, cancel_io}
use aionet.Epoller.Poller.Handle.{dispatch_req, handle_req, handle_event}

-- `wakeup` up to the wait for the reply on the new channel `ch`: the poller, and the event sent to
-- it. `efd` is `p.efd`.
unfoldable pub wakeup : Unix → Poller → ℕ → ℕ → ℕ → Poller × IoEvent
wakeup u p efd cpuid ch =
    let ref : ReqRef = record {
      cid = "";
      fd = efd;
      flags = u.epollin;
      mode = ev_null;
      deadline = zero_time;
    } in
    (
      record p { cpuid = some cpuid },
      record {
        dl_ref = 0;
        pev = [];
        err = none;
        req = record { ch = some ch; op = 0; ref = ref };
        timed_at = zero_time;
      },
    )

-- `SetAffinity` on a machine of `num_cpu` processors.
unfoldable pub set_affinity :
    Unix → ℕ → Poller → ℕ → ℕ → ℕ → Option Error × Option (Poller × IoEvent)
unfolding wakeup
set_affinity u num_cpu p efd cpuid ch =
    if leb num_cpu cpuid
    then (some (errorf "core %d does not exist" (cpuid ∷ [])), none)
    else (none, some (wakeup u p efd cpuid ch))

-- Where 0 is none of the operations of epoll_ctl and not EPOLLHUP, and the eventfd is not watched
-- as a connection, the event of a wakeup is answered with the error that its race is undefined, and
-- does nothing else: the eventfd is not written to, and the poller keeps running.
pub wakeup_is_refused :
    (u : Unix) (p : Poller) (efd cpuid ch : ℕ)
    → 0 ≢ u.ctl_add
    → 0 ≢ u.ctl_del
    → 0 ≢ u.ctl_mod
    → 0 ≢ u.epollhup
    → lookup efd p.race ≡ none
    → handle_event u ((wakeup u p efd cpuid ch).1) ((wakeup u p efd cpuid ch).0)
      ≡ ret (record p {
        cpuid = some cpuid;
        trace = reply ch (some (errorf "%s %s ioRace is undefined" [])) ∷ p.trace;
      })
unfolding wakeup handle_event handle_req dispatch_req cancel_io get_io_race send_error
wakeup_is_refused u p efd cpuid ch a d m h e = ground (arith, a, d, m, h, e)
