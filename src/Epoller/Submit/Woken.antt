-- ===== src/Epoller/Submit/Woken.antt =====
-- base.go, waitIoReady, and epoller/poller.go: a goroutine that waits to read, until its descriptor
-- is readable.
use aionet.Common.{
  ℕ, true, false, ◌≡◌, ◌≢◌, ◌∙◌, ap, refl, List, ◌∷◌, Option, none, some, is_some, ret, Text,
  lookup-insert_self,
}
use aionet.Epoller.{IoEvent, IoRace, Trace, reply, Unix, has, pev_reset, ev_read}
use aionet.Epoller.Race.Laws.{closing, Distinct}
use aionet.Epoller.Poller.{Poller, Slots, slots, get_io_race, one_shot}
use aionet.Epoller.Poller.Handle.{handle_event, handle_io_ready}
use aionet.Epoller.Poller.Ready.{ready_answers}
use aionet.Epoller.Submit.{Views, submit_io_req, wait_io_ready}
use aionet.Epoller.Submit.Waits.{interest, waits_for, asked, armed_with, waits-armed}

abbrev slots_or_none : Option Slots → Slots
slots_or_none none = record { rd = none; wr = none }
slots_or_none (some s) = s

slots-armed :
    (u : Unix) (views : Views) (ch : ℕ) (cid : Text) (fd : ℕ) (p : Poller) (r w : IoRace)
    (log : Trace)
    → slots p fd ≡ record { rd = some r; wr = some w }
    → slots (armed_with u ch (waits_for u views cid fd ev_read) r log p) fd
      ≡ record { rd = some (record r { ch = some ch; armed = true }); wr = some w }
slots-armed u views ch cid fd p r w log e =
    let armed_r : IoRace = record r { ch = some ch; armed = true } in
    ap (λ o. slots_or_none o)
      (lookup-insert_self fd (record (slots p fd) { rd = some armed_r }) p.race)
    ∙ ap (λ (t : Slots). record t { rd = some armed_r }) e

-- When no error and no readiness is kept for a descriptor's reading side, nobody waits to write,
-- and the system accepts, a request of waitIoReady to read is not answered at once; the next event
-- of the descriptor that is readable, not writable and no error answers it on its channel, once and
-- without an error, and stops the timers of that side.
pub waiter_is_woken :
    (u : Unix) (views : Views) (ch : ℕ) (cid : Text) (fd events : ℕ) (ev : IoEvent) (p : Poller)
    (r w : IoRace) (m : List (ℕ × ℕ))
    → u.ctl_mod ≢ u.ctl_del
    → u.ctl_mod ≢ u.ctl_add
    → has (interest u ev_read) (pev_reset u) ≡ false
    → slots p fd ≡ record { rd = some r; wr = some w }
    → is_some r.err ≡ false
    → r.ready ≡ false
    → r.done_ch ≡ some m
    → Distinct m
    → w.ch ≡ none
    → u.on_epoll_ctl p.trace u.ctl_mod fd (one_shot u (interest u ev_read)) ≡ none
    → has events u.epollerr ≡ false
    → has events u.epollin ≡ true
    → has events u.epollout ≡ false
    → let ref = waits_for u views cid fd ev_read in
      (p1 q : Poller) × (handle_event u (submit_io_req views ch (wait_io_ready u cid fd ev_read)) p
        ≡ ret p1)
      × (p1.trace ≡ asked u ref p)
      × (handle_io_ready u (record { events = events; fd = fd }) ev p1 ≡ ret q)
      × (q.trace ≡ reply ch none ∷ closing m (asked u ref p))
unfolding get_io_race
waiter_is_woken u views ch cid fd events ev p r w m nd na nr both clean idle timers distinct quiet
      accepts ok inn out =
    let ref = waits_for u views cid fd ev_read in
    let p1 = armed_with u ch ref r (asked u ref p) p in
    let after = slots-armed u views ch cid fd p r w (asked u ref p) both in
    let (q, runs, trace, _) =
      ready_answers u (record { events = events; fd = fd }) ev p1
        (record r { ch = some ch; armed = true }) w ch m (ap (λ s. s.rd) after)
        (ap (λ s. s.wr) after) refl timers distinct ok inn out quiet in
    (
      p1,
      q,
      waits-armed u views ch cid fd ev_read p r nd na nr (ap (λ s. s.rd) both) clean idle accepts,
      refl,
      runs,
      trace,
    )
