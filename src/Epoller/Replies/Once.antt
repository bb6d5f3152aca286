-- ===== src/Epoller/Replies/Once.antt =====
-- epoller/poller.go: over any run of the poller, each request is answered at most once.
use aionet.Common.{
  ℕ, ◌+◌, ◌≡◌, refl, sym, ◌≤◌, Bool, true, false, Option, none, some, List, [], ◌∷◌, arith, ap, ◌∙◌,
  if◌then◌else◌, Error, Option-cases, inl, inr, Go, ret, panics, ◌>>=◌, Bool-cases, ret-injective,
}
use aionet.Epoller.{IoReq, IoEvent, EpollEvent, IoRace, Unix}
use aionet.Epoller.Race.{send_error}
use aionet.Epoller.Poller.{Poller, slots, rearm1, check_affinity}
use aionet.Epoller.Poller.Handle.{
  ready_in, ready_out, on_events, with_affinity, handle_io_ready, watch, race_deadline,
  dispatch_req, handle_req, handle_events, handle_event, run, with_reply,
}
use aionet.Epoller.Replies.{waiting, replies, waits, owed, debt-on_ready, waits-insert}
use aionet.Epoller.Replies.Handlers.{
  Accepts, owed-cancel_io, owed-delete_by_fd, owed-reset_io_ready, owed-handle_io_error, owed-rearm,
  owed-race_deadline, owed-others, owed-watch,
}

-- Inversion of a successful bind.
bind_ret {ℓ κ} :
    {A : Type ℓ} {B : Type κ} (m : Go A) (f : A → Go B) {b : B}
    → (m >>= f) ≡ ret b
    → (a : A) × (m ≡ ret a) × (f a ≡ ret b)
bind_ret (ret a) f h = (a, refl, h)
bind_ret (panics e) f h = cc

abbrev sent_waits : ℕ → Option ℕ → Option (Option Error) → ℕ
sent_waits c ch none = 0
sent_waits c ch (some err) = waiting c ch

dispatch_watch :
    (c : ℕ) (u : Unix) (req : IoReq) (p q : Poller) (sent : Option (Option Error))
    → (watch u p req.ref >>= with_reply) ≡ ret (q, sent)
    → owed c q ≤ owed c p
dispatch_watch c u req p q sent h =
    let ((q', err), e, f) = bind_ret (watch u p req.ref) with_reply h in
    ground (arith, owed-watch c u p q' req.ref err e)

dispatch_deadline :
    (c : ℕ) (req : IoReq) (p q : Poller) (sent : Option (Option Error))
    → (race_deadline p req.ref >>= with_reply) ≡ ret (q, sent)
    → owed c q ≤ owed c p
dispatch_deadline c req p q sent h =
    let ((q', err), e, f) = bind_ret (race_deadline p req.ref) with_reply h in
    ground (arith, owed-race_deadline c p q' req.ref err e)

-- A request leaves its channel owed at most once more.
owed-dispatch_req :
    (c : ℕ) (u : Unix) (req : IoReq) (p q : Poller) (sent : Option (Option Error))
    → Accepts u
    → dispatch_req u req p ≡ ret (q, sent)
    → owed c q + sent_waits c req.ch sent ≤ owed c p + waiting c req.ch
unfolding dispatch_req
owed-dispatch_req c u req p q sent ok h = ground (
  arith,
  owed-delete_by_fd c u p req.ref,
  dispatch_watch c u req p q sent,
  owed-reset_io_ready c p req.ref,
  owed-rearm c u p req.ref req.ch ok,
  owed-cancel_io c p req,
  dispatch_deadline c req p q sent,
  owed-others c u p req,
)

owed-ready_in :
    (c : ℕ) (u : Unix) (pev : EpollEvent) (ev : IoEvent) (r : IoRace) (p : Poller)
    → let (r', q, rearmed) = ready_in u pev ev r p in
      (waiting c r'.ch + replies c q.trace ≡ waiting c r.ch + replies c p.trace) × (q.race ≡ p.race)
unfolding ready_in rearm1
owed-ready_in c u pev ev r p = ground (arith, debt-on_ready c ev (r, p.trace))

owed-ready_out :
    (c : ℕ) (u : Unix) (pev : EpollEvent) (ev : IoEvent) (b : Bool) (r : IoRace) (p : Poller)
    → let (r', q) = ready_out u pev ev b r p in
      (waiting c r'.ch + replies c q.trace ≡ waiting c r.ch + replies c p.trace) × (q.race ≡ p.race)
unfolding ready_out rearm1
owed-ready_out c u pev ev b r p = ground (arith, debt-on_ready c ev (r, p.trace))

owed-on_events :
    (c : ℕ) (u : Unix) (pev : EpollEvent) (ev : IoEvent) (r w : IoRace) (p : Poller)
    → (slots p pev.fd).rd ≡ some r
    → (slots p pev.fd).wr ≡ some w
    → owed c (on_events u pev ev r w p) ≤ owed c p
unfolding on_events
owed-on_events c u pev ev r w p er ew =
    let (r', q, rearmed) = ready_in u pev ev r p in
    let (w', q') = ready_out u pev ev rearmed w q in
    ground (
      arith,
      owed-ready_in c u pev ev r p,
      owed-ready_out c u pev ev rearmed w q,
      waits-insert c pev.fd (record { rd = some r'; wr = some w' }) p.race,
    )

-- handleIoReady answers only requests that wait.
owed-handle_io_ready :
    (c : ℕ) (u : Unix) (pev : EpollEvent) (ev : IoEvent) (p q : Poller)
    → handle_io_ready u pev ev p ≡ ret q
    → owed c q ≤ owed c p
unfolding handle_io_ready
owed-handle_io_ready c u pev ev p q h = elim (Option-cases (slots p pev.fd).rd) [
  | inl e ↦ ground arith
  | inr (r, er) ↦ elim (Option-cases (slots p pev.fd).wr) [
    | inl e ↦ ground arith
    | inr (w, ew) ↦ ground (arith, owed-on_events c u pev ev r w p er ew)
  ]
]

owed-check_affinity : (c : ℕ) (u : Unix) (p : Poller) → owed c (check_affinity u p).0 ≡ owed c p
unfolding check_affinity
owed-check_affinity c u p = ground arith

owed-with_affinity :
    (c : ℕ) (u : Unix) (pev : EpollEvent) (p : Poller) → owed c (with_affinity u pev p) ≡ owed c p
unfolding with_affinity
owed-with_affinity c u pev p = ground (arith, owed-check_affinity c u p)

owed-handle_events :
    (c : ℕ) (u : Unix) (pevs : List EpollEvent) (ev : IoEvent) (p q : Poller)
    → handle_events u pevs ev p ≡ ret q
    → owed c q ≤ owed c p
unfolding handle_events
owed-handle_events c u [] ev p q h = ground arith
owed-handle_events c u (pev ∷ pevs) ev p q h =
    let (q', e, f) = bind_ret (handle_io_ready u pev ev (with_affinity u pev p)) _ h in
    omega (
      arith,
      owed-check_affinity c u p,
      owed-with_affinity c u pev p,
      owed-handle_io_ready c u pev ev (with_affinity u pev p) q' e,
      owed-handle_events c u pevs ev q' q f,
    )

owed-handle_req :
    (c : ℕ) (u : Unix) (req : IoReq) (p q : Poller)
    → Accepts u
    → handle_req u req p ≡ ret q
    → owed c q ≤ owed c p + waiting c req.ch
unfolding handle_req send_error
owed-handle_req c u req p q ok h =
    let ((q', sent), e, f) = bind_ret (dispatch_req u req p) _ h in
    ground (arith, owed-dispatch_req c u req p q' sent ok e)

-- The requests to come that bring the channel `c`.
abbrev pub queued : ℕ → List IoEvent → ℕ
queued c [] = 0
queued c (x ∷ xs) = waiting c x.req.ch + queued c xs

owed-handle_event :
    (c : ℕ) (u : Unix) (x : IoEvent) (p q : Poller)
    → Accepts u
    → handle_event u x p ≡ ret q
    → owed c q ≤ owed c p + waiting c x.req.ch
unfolding handle_event
owed-handle_event c u x p q ok h = ground (
  arith,
  owed-handle_io_error c u x p,
  owed-handle_req c u x.req p q ok,
  owed-handle_events c u x.pev x p q,
)

pub run_on :
    (u : Unix) (x : IoEvent) (xs : List IoEvent) (p : Poller)
    → p.running ≡ true
    → run u (x ∷ xs) p ≡ (handle_event u x p >>= run u xs)
unfolding run
run_on u x xs p on = ap (λ b. if b then (handle_event u x p >>= run u xs) else ret p) on

run_off :
    (u : Unix) (x : IoEvent) (xs : List IoEvent) (p : Poller)
    → p.running ≡ false
    → run u (x ∷ xs) p ≡ ret p
unfolding run
run_off u x xs p off = ap (λ b. if b then (handle_event u x p >>= run u xs) else ret p) off

-- If the system accepts every epoll_ctl call, then over any events that the poller receives, the
-- replies sent to a channel and the requests still waiting with it are at most those before and
-- the requests that brought it. So a channel that one request brings gets at most one reply.
pub run_answers_once :
    (c : ℕ) (u : Unix) (xs : List IoEvent) (p : Poller) {q : Poller}
    → Accepts u
    → run u xs p ≡ ret q
    → waits c q.race + replies c q.trace ≤ waits c p.race + replies c p.trace + queued c xs
run_answers_once c u [] p ok h = unfold run in ground arith
run_answers_once c u (x ∷ xs) p ok h = elim (Bool-cases p.running) [
  | inl on ↦
      let (q', e, f) = bind_ret (handle_event u x p) (run u xs) (sym (run_on u x xs p on) ∙ h) in
      omega (arith, owed-handle_event c u x p q' ok e, run_answers_once c u xs q' ok f)
  | inr off ↦ let same = ret-injective (sym (run_off u x xs p off) ∙ h) in rw (← same) (omega arith)
]
