-- ===== src/Epoller/Submit/Waits.antt =====
-- base.go, waitIoReady, through SubmitIoReq of epoller/base.go to handleReq and rearm of
-- epoller/poller.go: what comes back to the goroutine that waits for its descriptor.
use aionet.Common.{
  ℕ, ◌==◌, true, false, ◌≡◌, ◌≢◌, ◌∙◌, ap, refl, [], ◌∷◌, Option, none, some, is_some, Error, ret,
  ==_ne, ==_refl, if◌then◌else◌, Text, ◌⊎◌, Bool-cases, Option-cases, inl, inr,
}
use aionet.EventMap.{value}
use aionet.EventMap.Key
use aionet.EventMap.Build
use aionet.Epoller.{ReqRef, IoRace, Trace, reply, epoll_ctl, Unix, has, pev_reset, zero_time}
use aionet.Epoller.Race.{send_error}
use aionet.Epoller.Poller.{Poller, get_io_race, put_io_race, rearm, one_shot}
use aionet.Epoller.Poller.Handle.{dispatch_req, handle_req, handle_event}
use aionet.Epoller.Submit.{Views, submit_io_req, submit_req, wait_io_ready}

-- The events of a mode: those of reading for 2, of writing for 5, else none.
abbrev pub interest : Unix → ℕ → ℕ
interest u mode = if mode == 2 then u.epollin else if mode == 5 then u.epollout else 0

-- The request that waitIoReady makes.
abbrev pub waits_for : Unix → Views → Text → ℕ → ℕ → ReqRef
waits_for u views cid fd mode = record {
  cid = views.text cid;
  fd = fd;
  flags = interest u mode;
  mode = mode;
  deadline = zero_time;
}

submit-wait_io_ready :
    (u : Unix) (views : Views) (ch : ℕ) (cid : Text) (fd mode : ℕ)
    → submit_io_req views ch (wait_io_ready u cid fd mode) ≡ record {
      dl_ref = 0;
      pev = [];
      err = none;
      req = record { ch = some ch; op = u.ctl_mod; ref = waits_for u views cid fd mode };
      timed_at = zero_time;
    }
unfolding submit_io_req wait_io_ready submit_req value Key.data_mark Build.as_string
submit-wait_io_ready u views ch cid fd mode = refl

-- What handleReq does with the result of rearm.
abbrev replied : ℕ → Poller × Option Error → Poller
replied ch (q, none) = q
replied ch (q, some e) = record q { trace = reply ch (some e) ∷ q.trace }

replied-if :
    (ch : ℕ) (r : Poller × Option Error)
    → (elim (if is_some r.1 then some r.1 else none) [
      | none ↦ ret r.0
      | some err ↦ ret (record r.0 { trace = reply ch err ∷ r.0.trace })
    ])
      ≡ ret (replied ch r)
replied-if ch (q, none) = refl
replied-if ch (q, some e) = refl

handle_req-mod :
    (u : Unix) (ch : ℕ) (ref : ReqRef) (p : Poller)
    → u.ctl_mod ≢ u.ctl_del
    → u.ctl_mod ≢ u.ctl_add
    → has ref.flags (pev_reset u) ≡ false
    → handle_req u (record { ch = some ch; op = u.ctl_mod; ref = ref }) p
      ≡ ret (replied ch (rearm u p ref (some ch)))
unfolding handle_req dispatch_req send_error
handle_req-mod u ch ref p nd na nr =
    rw (==_ne u.ctl_mod u.ctl_del nd, ==_ne u.ctl_mod u.ctl_add na, ==_refl u.ctl_mod, nr)
      (replied-if ch (rearm u p ref (some ch)))

rearm-kept :
    (u : Unix) (ch : ℕ) (ref : ReqRef) (p : Poller) (r : IoRace)
    → get_io_race p ref ≡ some r
    → is_some r.err ≡ true
    → replied ch (rearm u p ref (some ch))
      ≡ put_io_race p ref (record r { ready = false }, reply ch r.err ∷ p.trace)
unfolding rearm
rearm-kept u ch ref p r found a = rw (rearm, found, a) refl

rearm-ready :
    (u : Unix) (ch : ℕ) (ref : ReqRef) (p : Poller) (r : IoRace)
    → get_io_race p ref ≡ some r
    → is_some r.err ≡ false
    → r.ready ≡ true
    → replied ch (rearm u p ref (some ch))
      ≡ put_io_race p ref (record r { ready = false }, reply ch none ∷ p.trace)
unfolding rearm
rearm-ready u ch ref p r found a b = rw (rearm, found, a, b) refl

-- A call of epoll_ctl for one event, and the poller that keeps the channel ch until the event
-- comes.
abbrev pub asked : Unix → ReqRef → Poller → Trace
asked u ref p = epoll_ctl u.ctl_mod ref.fd (one_shot u ref.flags) ∷ p.trace

abbrev pub armed_with : Unix → ℕ → ReqRef → IoRace → Trace → Poller → Poller
armed_with u ch ref r tr p =
    put_io_race (record p { trace = asked u ref p }) ref
      (record r { ch = some ch; armed = true }, tr)

rearm-armed :
    (u : Unix) (ch : ℕ) (ref : ReqRef) (p : Poller) (r : IoRace) (o : Option Error)
    → get_io_race p ref ≡ some r
    → is_some r.err ≡ false
    → r.ready ≡ false
    → u.on_epoll_ctl p.trace u.ctl_mod ref.fd (one_shot u ref.flags) ≡ o
    → replied ch (rearm u p ref (some ch)) ≡ replied ch (armed_with u ch ref r (asked u ref p) p, o)
unfolding rearm
rearm-armed u ch ref p r o found a b c = rw (rearm, found, a, b, c) cc

-- A request of waitIoReady at an idle race that the system accepts.
pub waits-armed :
    (u : Unix) (views : Views) (ch : ℕ) (cid : Text) (fd mode : ℕ) (p : Poller) (r : IoRace)
    → u.ctl_mod ≢ u.ctl_del
    → u.ctl_mod ≢ u.ctl_add
    → has (interest u mode) (pev_reset u) ≡ false
    → get_io_race p (waits_for u views cid fd mode) ≡ some r
    → is_some r.err ≡ false
    → r.ready ≡ false
    → u.on_epoll_ctl p.trace u.ctl_mod fd (one_shot u (interest u mode)) ≡ none
    → let ref = waits_for u views cid fd mode in
      handle_event u (submit_io_req views ch (wait_io_ready u cid fd mode)) p
      ≡ ret (armed_with u ch ref r (asked u ref p) p)
unfolding handle_event
waits-armed u views ch cid fd mode p r nd na nr found a b c =
    ap (λ x. handle_event u x p) (submit-wait_io_ready u views ch cid fd mode)
    ∙ handle_req-mod u ch (waits_for u views cid fd mode) p nd na nr
    ∙ ap ret (rearm-armed u ch (waits_for u views cid fd mode) p r none found a b c)

-- A request of waitIoReady with the channel ch, at a poller whose race for the descriptor and the
-- mode is r: an error that r keeps is the reply, and r is no longer ready; a race that is ready
-- replies at once without an error, and is no longer ready; any other asks the system for one event
-- of the mode, and keeps ch until it comes when the system accepts, or also gets the system's error
-- as its reply.
pub wait_io_ready_cases :
    (u : Unix) (views : Views) (ch : ℕ) (cid : Text) (fd mode : ℕ) (p : Poller) (r : IoRace)
    → u.ctl_mod ≢ u.ctl_del
    → u.ctl_mod ≢ u.ctl_add
    → has (interest u mode) (pev_reset u) ≡ false
    → get_io_race p (waits_for u views cid fd mode) ≡ some r
    → let ref = waits_for u views cid fd mode in
      let after = handle_event u (submit_io_req views ch (wait_io_ready u cid fd mode)) p in
      let answer = u.on_epoll_ctl p.trace u.ctl_mod fd (one_shot u (interest u mode)) in
      ((is_some r.err ≡ true)
        × (after ≡ ret (put_io_race p ref (record r { ready = false }, reply ch r.err ∷ p.trace))))
      ⊎ ((is_some r.err ≡ false)
          × (r.ready ≡ true)
          × (after ≡ ret (put_io_race p ref (record r { ready = false }, reply ch none ∷ p.trace))))
      ⊎ ((is_some r.err ≡ false)
          × (r.ready ≡ false)
          × (answer ≡ none)
          × (after ≡ ret (armed_with u ch ref r (asked u ref p) p)))
      ⊎ ((e : Error) × (is_some r.err ≡ false)
          × (r.ready ≡ false)
          × (answer ≡ some e)
          × (after ≡ ret (armed_with u ch ref r (reply ch (some e) ∷ asked u ref p) p)))
unfolding handle_event
wait_io_ready_cases u views ch cid fd mode p r nd na nr found =
    let ref = waits_for u views cid fd mode in
    let sent =
      ap (λ x. handle_event u x p) (submit-wait_io_ready u views ch cid fd mode)
      ∙ handle_req-mod u ch ref p nd na nr in
    elim (Bool-cases (is_some r.err)) [
      | inl a ↦ inl (a, sent ∙ ap ret (rearm-kept u ch ref p r found a))
      | inr a ↦ elim (Bool-cases r.ready) [
        | inl b ↦ inr (inl (a, b, sent ∙ ap ret (rearm-ready u ch ref p r found a b)))
        | inr b ↦
            elim (Option-cases
              (u.on_epoll_ctl p.trace u.ctl_mod fd (one_shot u (interest u mode)))) [
                | inl c ↦
                    inr (
                      inr
                        (inl (a, b, c, sent ∙ ap ret (rearm-armed u ch ref p r none found a b c))))
                | inr (e, c) ↦ inr (
                    inr (
                      inr (
                        e,
                        a,
                        b,
                        c,
                        sent ∙ ap ret (rearm-armed u ch ref p r (some e) found a b c),
                      )))
              ]
      ]
    ]
