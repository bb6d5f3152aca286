-- ===== src/Epoller/Poller/Requests.antt =====
-- epoller/poller.go: deadline and close requests, and the requests left behind by them.
use aionet.Common.{
  lookup, remove, insert, lookup-insert_self, ℕ, ◌+◌, ◌≤◌, ◌≡◌, ◌≢◌, refl, true, false, ◌∙◌, none,
  some, List, [], ◌∷◌, arith, ap, Error, ret, deadline_exceeded, u16, Option-cases, inl, inr, hdp,
}
use aionet.Epoller.{
  ReqRef, IoEvent, IoRace, Trace, Unix, reply, ev_write, ev_read, has, zero_time, start_timer,
  new_io_event,
}
use aionet.Epoller.Race.{do_io_timeout, cancel_deadline, cancel_deadlines}
use aionet.Epoller.Poller.{
  Slots, Poller, slots, get_io_race, put_io_race, rearm, cancel_by_fd, delete_by_fd,
}
use aionet.Epoller.Poller.Handle.{
  race_deadline, run, handle_io_error, handle_timeouts, handle_timeout,
}
use aionet.Epoller.Poller.Ready.{get_io_race-put}
use aionet.Epoller.Replies.{replies, race_waits, slot_waits, waits-remove, waits, owed}
use aionet.Epoller.Replies.Handlers.{Accepts, owed-cancel_by_fd}
use aionet.Epoller.Replies.Once.{queued, run_answers_once}

-- A deadline that expires while nobody waits leaves its error in a race that has its map of timers
-- and whose time of the last event is not set.
timeout_is_kept :
    (ev : IoEvent) (r : IoRace) (trace : Trace) (m : List (ℕ × ℕ))
    → r.ch ≡ none
    → r.timed_at ≡ zero_time
    → r.done_ch ≡ some m
    → (do_io_timeout ev (r, trace)).0.err ≡ ev.err
unfolding do_io_timeout cancel_deadline
timeout_is_kept ev r trace m idle at done = ground arith

rearm_error :
    (u : Unix) (q : Poller) (ref : ReqRef) (r : IoRace) (e : Error) (c : ℕ)
    → get_io_race q ref ≡ some r
    → r.err ≡ some e
    → rearm u q ref (some c)
      ≡ (put_io_race q ref (record r { ready = false }, reply c (some e) ∷ q.trace), none)
unfolding rearm
rearm_error u q ref r e c f h = ground arith

-- The race after raceDeadline when its error is the expired deadline's.
abbrev after_deadline : Poller → IoRace → List (ℕ × ℕ) → IoRace
after_deadline p r m = record r {
  err = some deadline_exceeded;
  timed_at = zero_time;
  dl_ref = u16 (r.dl_ref + 1);
  done_ch = some (insert (u16 (r.dl_ref + 1)) p.next_ch m);
}

put_next :
    (p : Poller) (ref : ReqRef) (r : IoRace) (trace : Trace)
    → get_io_race (record (put_io_race p ref (r, trace)) { next_ch = p.next_ch + 1 }) ref ≡ some r
unfolding get_io_race
put_next p ref r trace = get_io_race-put p ref r trace

-- Setting a new deadline does not clear os.ErrDeadlineExceeded from a race that has its map of
-- timers, since raceDeadline looks for the package's own timeout error: it returns that error, and
-- the next request to wait is answered with it at once.
deadline_keeps_timeout :
    (u : Unix) (p : Poller) (ref : ReqRef) (r : IoRace) (m : List (ℕ × ℕ)) (c : ℕ)
    → get_io_race p ref ≡ some r
    → r.err ≡ some deadline_exceeded
    → r.done_ch ≡ some m
    → (q : Poller) × (race_deadline p ref ≡ ret (q, some deadline_exceeded))
      × ((rearm u q ref (some c)).0.trace ≡ reply c (some deadline_exceeded) ∷ q.trace)
unfolding race_deadline
deadline_keeps_timeout u p ref r m c e err done =
    let r' = after_deadline p r m in
    let trace' =
      start_timer p.next_ch
        (new_io_event ref (u16 (r.dl_ref + 1)) (record { events = ref.flags; fd = ref.fd } ∷ []))
      ∷ p.trace in
    let q : Poller = record (put_io_race p ref (r', trace')) { next_ch = p.next_ch + 1 } in
    (
      q,
      ground arith,
      ap (λ t. t.0.trace)
          (rearm_error u q ref r' deadline_exceeded c (put_next p ref r' trace') refl),
    )

-- The event that a timer started by raceDeadline sends when its deadline expires.
abbrev pub expiry : ReqRef → ℕ → IoEvent
expiry ref dl_ref = new_io_event ref dl_ref (record { events = ref.flags; fd = ref.fd } ∷ [])

expiry-error :
    (ref : ReqRef) (dl_ref : ℕ)
    → ref.deadline ≢ zero_time
    → (expiry ref dl_ref).err ≡ some deadline_exceeded
unfolding new_io_event
expiry-error ref dl_ref h = ground (arith, h)

timers_kept :
    (ev : IoEvent) (r : IoRace) (trace : Trace) (m : List (ℕ × ℕ))
    → r.ch ≡ none
    → r.timed_at ≡ zero_time
    → r.done_ch ≡ some m
    → (m' : List (ℕ × ℕ)) × ((do_io_timeout ev (r, trace)).0.done_ch ≡ some m')
unfolding do_io_timeout cancel_deadline
timers_kept ev r trace m idle at done = elim (Option-cases (lookup ev.dl_ref m)) [
  | inl e ↦ (m, ground arith)
  | inr (k, e) ↦ (remove ev.dl_ref m, ground arith)
]

expiry_handled :
    (u : Unix) (p : Poller) (ref : ReqRef) (r : IoRace) (dl_ref : ℕ)
    → get_io_race p ref ≡ some r
    → ref.mode ≡ ev_read
    → has ref.flags u.epollin ≡ true
    → ref.deadline ≢ zero_time
    → handle_io_error u (expiry ref dl_ref) p
      ≡ put_io_race p ref (do_io_timeout (expiry ref dl_ref) (r, p.trace))
unfolding handle_io_error handle_timeouts handle_timeout new_io_event
expiry_handled u p ref r dl_ref e mode flags late = ground (arith, e, mode, flags, late)

-- When a read deadline expires while nobody waits to read, on a race whose time of the last event
-- is not set, then a new deadline set after it does not clear the expired one: raceDeadline returns
-- os.ErrDeadlineExceeded, and the next request to read is answered with it at once.
pub expired_deadline_persists :
    (u : Unix) (p : Poller) (ref : ReqRef) (r : IoRace) (m : List (ℕ × ℕ)) (dl_ref c : ℕ)
    → get_io_race p ref ≡ some r
    → r.ch ≡ none
    → r.timed_at ≡ zero_time
    → r.done_ch ≡ some m
    → ref.mode ≡ ev_read
    → has ref.flags u.epollin ≡ true
    → ref.deadline ≢ zero_time
    → (q : Poller) × (race_deadline (handle_io_error u (expiry ref dl_ref) p) ref
        ≡ ret (q, some deadline_exceeded))
      × ((rearm u q ref (some c)).0.trace ≡ reply c (some deadline_exceeded) ∷ q.trace)
expired_deadline_persists u p ref r m dl_ref c e idle at done mode flags late =
    let x = expiry ref dl_ref in
    let s = do_io_timeout x (r, p.trace) in
    let (m', f) = timers_kept x r p.trace m idle at done in
    let err : (s.0.err ≡ some deadline_exceeded) =
      timeout_is_kept x r p.trace m idle at done ∙ expiry-error ref dl_ref late in
    let (q, g, h) =
      deadline_keeps_timeout u (put_io_race p ref s) ref (s.0) m' c
        (get_io_race-put p ref (s.0) (s.1)) err f in
    (q, ap (λ y. race_deadline y ref) (expiry_handled u p ref r dl_ref e mode flags late) ∙ g, h)

waits-remove-lookup :
    (c k : ℕ) (m : List (ℕ × Slots)) (s : Slots)
    → lookup k m ≡ some s
    → waits c (remove k m) + slot_waits c s ≤ waits c m
waits-remove-lookup c k [] s e = cc
waits-remove-lookup c k ((j, t) ∷ m) s e =
    ground (arith, waits-remove-lookup c k m s, waits-remove c k m)

-- The writing side is not touched by a cancellation of the reading side.
cancel_keeps_writer :
    (p : Poller) (ref : ReqRef) (w : IoRace)
    → ref.mode ≢ ev_write
    → (slots p ref.fd).wr ≡ some w
    → (s : Slots) × (lookup ref.fd (cancel_by_fd p ref).race ≡ some s) × (s.wr ≡ some w)
unfolding cancel_by_fd get_io_race
cancel_keeps_writer p ref w ne e = elim (Option-cases (slots p ref.fd).rd) [
  | inl er ↦ elim (Option-cases (lookup ref.fd p.race)) [
    | inl l ↦ absurd (ground arith)
    | inr (s, l) ↦ (s, ground arith, ground arith)
  ]
  | inr (r, er) ↦
      let r' = (cancel_deadlines (some (hdp 16)) (r, p.trace)).0 in
      let s : Slots = record (slots p ref.fd) { rd = some r' } in
      (s, ground (arith, lookup-insert_self ref.fd s p.race), e)
]

nothing_owed :
    (u : Unix) (p : Poller) (ref : ReqRef) (w : IoRace) (c : ℕ)
    → ref.mode ≢ ev_write
    → (slots p ref.fd).wr ≡ some w
    → w.ch ≡ some c
    → owed c p ≡ 1
    → owed c (delete_by_fd u p ref).0 ≡ 0
unfolding delete_by_fd
nothing_owed u p ref w c ne e wait one =
    let (s, l, f) = cancel_keeps_writer p ref w ne e in
    let waits_one : race_waits c s.wr ≡ 1 = ground arith in
    omega (
      arith,
      owed-cancel_by_fd c p ref,
      waits-remove-lookup c ref.fd (cancel_by_fd p ref).race s l,
      waits_one,
    )

-- A deletion request that does not name the writing side, as socket.close makes it, never answers a
-- request that waits to write, if that is the only one with its channel: whatever events follow,
-- unless a later request brings the same channel, no reply is sent to it. (That the system accepts
-- its calls is assumed, as otherwise a refused call could be answered too.)
pub close_forgets_writer :
    (u : Unix) (p : Poller) (ref : ReqRef) (w : IoRace) (c : ℕ) (xs : List IoEvent) {q : Poller}
    → ref.mode ≢ ev_write
    → (slots p ref.fd).wr ≡ some w
    → w.ch ≡ some c
    → owed c p ≡ 1
    → Accepts u
    → run u xs (delete_by_fd u p ref).0 ≡ ret q
    → queued c xs ≡ 0
    → replies c q.trace ≡ 0
close_forgets_writer u p ref w c xs ne e wait one ok h none_queued = omega (
  arith,
  run_answers_once c u xs (delete_by_fd u p ref).0 ok h,
  nothing_owed u p ref w c ne e wait one,
)
