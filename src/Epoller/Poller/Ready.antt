-- ===== src/Epoller/Poller/Ready.antt =====
-- epoller/poller.go: readiness events, with and without a request that waits for them.
use aionet.Common.{
  lookup, lookup-insert_self, ℕ, ◌≡◌, refl, true, false, none, some, List, [], ◌∷◌, arith, ap, ◌∙◌,
  ret, panics, nil_dereference,
}
use aionet.Epoller.{ReqRef, IoEvent, EpollEvent, IoRace, Trace, Unix, reply, has, ev_read}
use aionet.Epoller.Race.Laws.{Distinct, closing, do_io_ready_lem}
use aionet.Epoller.Poller.{Poller, slots, get_io_race, put_io_race, on_ready, rearm, check_affinity}
use aionet.Epoller.Poller.Handle.{
  ready_in, ready_out, on_events, handle_io_ready, with_affinity, handle_events, handle_event,
}

pub get_io_race-put :
    (p : Poller) (ref : ReqRef) (r : IoRace) (tr : Trace)
    → get_io_race (put_io_race p ref (r, tr)) ref ≡ some r
unfolding get_io_race
get_io_race-put p ref r tr = ground (
  arith,
  lookup-insert_self ref.fd (record (slots p ref.fd) { wr = some r }) p.race,
  lookup-insert_self ref.fd (record (slots p ref.fd) { rd = some r }) p.race,
)

race-with_affinity :
    (u : Unix) (pev : EpollEvent) (p : Poller) → (with_affinity u pev p).race ≡ p.race
unfolding with_affinity check_affinity
race-with_affinity u pev p = ground arith

unwatched : (p : Poller) (fd : ℕ) → lookup fd p.race ≡ none → (slots p fd).rd ≡ none
unwatched p fd e = ground arith

-- An event for a descriptor that is not watched makes the poller's goroutine panic with a nil
-- dereference, instead of being reported.
pub unwatched_panics :
    (u : Unix) (pev : EpollEvent) (pevs : List EpollEvent) (x : IoEvent) (p : Poller)
    → x.err ≡ none
    → x.pev ≡ pev ∷ pevs
    → lookup pev.fd p.race ≡ none
    → handle_event u x p ≡ panics nil_dereference
unfolding handle_event handle_events handle_io_ready
unwatched_panics u pev pevs x p e f l =
    let here =
      unwatched (with_affinity u pev p) pev.fd
        (ap (lookup pev.fd) (race-with_affinity u pev p) ∙ l) in
    ground arith

rd_of_on_events :
    (u : Unix) (pev : EpollEvent) (ev : IoEvent) (r w : IoRace) (p : Poller)
    → has pev.events u.epollerr ≡ false
    → has pev.events u.epollin ≡ true
    → (slots (on_events u pev ev r w p) pev.fd).rd ≡ some (on_ready ev (r, p.trace)).0
unfolding on_events ready_in
rd_of_on_events u pev ev r w p noerr inn =
    let (r', q, rearmed) = ready_in u pev ev r p in
    let (w', q') = ready_out u pev ev rearmed w q in
    ground (arith, lookup-insert_self pev.fd (record { rd = some r'; wr = some w' }) q'.race)

read_race :
    (q : Poller) (ref : ReqRef) (fd : ℕ)
    → ref.fd ≡ fd
    → ref.mode ≡ ev_read
    → get_io_race q ref ≡ (slots q fd).rd
unfolding get_io_race
read_race q ref fd e m = ground arith

rearm_ready :
    (u : Unix) (q : Poller) (ref : ReqRef) (r : IoRace) (c : ℕ)
    → get_io_race q ref ≡ some r
    → r.err ≡ none
    → r.ready ≡ true
    → rearm u q ref (some c)
      ≡ (put_io_race q ref (record r { ready = false }, reply c none ∷ q.trace), none)
unfolding rearm
rearm_ready u q ref r c e noerr rdy = ground arith

on_ready_idle :
    (ev : IoEvent) (r : IoRace) (trace : Trace)
    → r.ch ≡ none
    → (on_ready ev (r, trace)).0 ≡ record r { ready = true; armed = false }
unfolding on_ready
on_ready_idle ev r trace e = ground arith

on_ready_waiting :
    (ev : IoEvent) (r : IoRace) (trace : Trace) (c : ℕ) (m : List (ℕ × ℕ))
    → r.ch ≡ some c
    → r.done_ch ≡ some m
    → Distinct m
    → on_ready ev (r, trace) ≡ (
      record r {
        err = none;
        ready = false;
        ch = none;
        done_ch = some [];
        armed = false;
        timed_at = ev.timed_at;
      },
      reply c none ∷ closing m trace,
    )
unfolding on_ready
on_ready_waiting ev r trace c m e done d =
    ground (arith, do_io_ready_lem (record r { timed_at = ev.timed_at }) trace m c d done e)

answered_trace :
    (u : Unix) (pev : EpollEvent) (ev : IoEvent) (p : Poller) (r w : IoRace) (c : ℕ)
    (m : List (ℕ × ℕ))
    → r.ch ≡ some c
    → r.done_ch ≡ some m
    → Distinct m
    → has pev.events u.epollerr ≡ false
    → has pev.events u.epollin ≡ true
    → has pev.events u.epollout ≡ false
    → w.ch ≡ none
    → (on_events u pev ev r w p).trace ≡ reply c none ∷ closing m p.trace
unfolding on_events ready_in ready_out
answered_trace u pev ev p r w c m wait done d ok inn out idle =
    ground (arith, on_ready_waiting ev r p.trace c m wait done d)

-- Read-readiness without an error event, on a race that nobody waits for and that holds no error,
-- is remembered: the event is accepted, the next read request is answered at once with no error,
-- and the readiness is used up by that.
pub ready_remembered :
    (u : Unix) (pev : EpollEvent) (ev : IoEvent) (p : Poller) (r w : IoRace) (ref : ReqRef) (c : ℕ)
    → (slots p pev.fd).rd ≡ some r
    → (slots p pev.fd).wr ≡ some w
    → r.ch ≡ none
    → r.err ≡ none
    → has pev.events u.epollerr ≡ false
    → has pev.events u.epollin ≡ true
    → ref.fd ≡ pev.fd
    → ref.mode ≡ ev_read
    → (q : Poller) × (handle_io_ready u pev ev p ≡ ret q)
      × ((rearm u q ref (some c)).1 ≡ none)
      × ((rearm u q ref (some c)).0.trace ≡ reply c none ∷ q.trace)
      × (get_io_race (rearm u q ref (some c)).0 ref
          ≡ some (record r { ready = false; armed = false }))
unfolding handle_io_ready
ready_remembered u pev ev p r w ref c er ew idle noerr ok inn same mode =
    let q = on_events u pev ev r w p in
    let idle_r : IoRace = record r { ready = true; armed = false } in
    let found : get_io_race q ref ≡ some idle_r =
      read_race q ref pev.fd same mode
      ∙ rd_of_on_events u pev ev r w p ok inn
      ∙ ap some (on_ready_idle ev r p.trace idle) in
    let step = rearm_ready u q ref idle_r c found noerr refl in
    (
      q,
      rw (er, ew),
      ap (λ t. t.1) step,
      ap (λ t. t.0.trace) step,
      ap (λ t. get_io_race t.0 ref) step
          ∙ get_io_race-put q ref (record idle_r { ready = false }) (reply c none ∷ q.trace),
    )

-- A waiting read request is answered by an event that is readable, not writable and no error, once
-- and with no error, where no request waits to write; all its timers are stopped, and neither an
-- error nor readiness is left for later.
pub ready_answers :
    (u : Unix) (pev : EpollEvent) (ev : IoEvent) (p : Poller) (r w : IoRace) (c : ℕ)
    (m : List (ℕ × ℕ))
    → (slots p pev.fd).rd ≡ some r
    → (slots p pev.fd).wr ≡ some w
    → r.ch ≡ some c
    → r.done_ch ≡ some m
    → Distinct m
    → has pev.events u.epollerr ≡ false
    → has pev.events u.epollin ≡ true
    → has pev.events u.epollout ≡ false
    → w.ch ≡ none
    → (q : Poller) × (handle_io_ready u pev ev p ≡ ret q)
      × (q.trace ≡ reply c none ∷ closing m p.trace)
      × ((slots q pev.fd).rd
          ≡ some (record r {
            err = none;
            ready = false;
            ch = none;
            done_ch = some [];
            armed = false;
            timed_at = ev.timed_at;
          }))
unfolding handle_io_ready
ready_answers u pev ev p r w c m er ew wait done d ok inn out idle =
    let q = on_events u pev ev r w p in
    (
      q,
      rw (er, ew),
      answered_trace u pev ev p r w c m wait done d ok inn out idle,
      rd_of_on_events u pev ev r w p ok inn
          ∙ ap (λ t. some t.0) (on_ready_waiting ev r p.trace c m wait done d),
    )
