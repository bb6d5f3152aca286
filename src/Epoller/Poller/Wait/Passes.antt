-- ===== src/Epoller/Poller/Wait/Passes.antt =====
-- epoller/poller.go, epollWait: what it passes to run.
use mathlib.Core.Path.{subst}
use aionet.Common.{
  ℕ, suc, not, Bool, true, false, ◌≡◌, ◌∙◌, ◌==◌, ◌||◌, ◌&&◌, ap, sym, refl, arith, if◌then◌else◌,
  List, [], ◌∷◌, ◌++◌, length, Option, none, some, Error, errno, hdp, errorf, syscall, eof,
  unexpected_eof, deadline_exceeded, Bool-cases, inl, inr, append-nil, append_assoc,
}
use aionet.Epoller.{EpollEvent, IoEvent, zero_time}
use aionet.Epoller.Events.{new_buffer}
use aionet.Epoller.Events.Bounds.{InBounds, resize-InBounds}
use aionet.Epoller.Poller.{Poller}
use aionet.Epoller.Poller.Handle.{is_efd}
use aionet.Epoller.Poller.Wait.{
  Answer, events, failed, Waiter, check_wakeup, pass_events, wait_loop, epoll_wait, event_of,
  is_zero, is_eintr,
}

abbrev pub is_fd : Option ℕ → ℕ → Bool
is_fd efd fd = elim efd [ none ↦ false | some n ↦ fd == n ]

-- The eventfd is among the events.
abbrev pub wakes : Option ℕ → List EpollEvent → Bool
wakes efd [] = false
wakes efd (ev ∷ evs) = is_fd efd ev.fd || wakes efd evs

abbrev pub is_shut : Option ℕ → Bool
is_shut none = false
is_shut (some cpu) = cpu == 0

-- EINTR.
abbrev pub is_interrupted : Error → Bool
is_interrupted (errno n) = n == 4
is_interrupted e = false

-- A wait after which the loop ends: one that fails, but for EINTR, or that gives an event of the
-- eventfd when the poller's cpuid is 0.
abbrev pub is_last : Option ℕ → Option ℕ → Answer → Bool
is_last cpuid efd (events evs) = is_shut cpuid && wakes efd evs
is_last cpuid efd (failed e) = not (is_interrupted e)

-- The first answers, with the first that f holds for.
abbrev pub up_to : (Answer → Bool) → List Answer → List Answer
up_to f [] = []
up_to f (x ∷ xs) = let rest = up_to f xs in if f x then x ∷ [] else x ∷ rest

-- The waits that a loop of the poller makes.
abbrev pub served : Poller → List Answer → List Answer
served p answers = if p.running then up_to (is_last p.cpuid p.efd) answers else []

-- What is sent for an answer: its events, or its error, which EINTR is not.
abbrev pub sent_for : Answer → List IoEvent
sent_for (events evs) = event_of none evs ∷ []
sent_for (failed e) = if is_interrupted e then [] else event_of (some e) [] ∷ []

abbrev pub sent_for_all : List Answer → List IoEvent
sent_for_all [] = []
sent_for_all (x ∷ xs) = sent_for x ++ sent_for_all xs

-- check_wakeup touches neither the buffer nor what is sent, and stops a poller that is shut down.
check_wakeup-keeps :
    (evs : List EpollEvent) (w : Waiter)
    → ((check_wakeup evs w).sent ≡ w.sent) × ((check_wakeup evs w).buffer ≡ w.buffer)
unfolding check_wakeup
check_wakeup-keeps [] w = (refl, refl)
check_wakeup-keeps (ev ∷ evs) w = elim (Bool-cases (is_efd w.poller ev.fd)) [
  | inl e ↦ rw (check_wakeup, e) (check_wakeup-keeps evs _)
  | inr e ↦ rw (check_wakeup, e) (check_wakeup-keeps evs w)
]

is_zero_lem : (o : Option ℕ) → is_zero o ≡ is_shut o
is_zero_lem none = refl
is_zero_lem (some n) = refl

is_eintr_lem : (e : Error) → is_eintr e ≡ is_interrupted e
is_eintr_lem (errno n) = refl
is_eintr_lem (hdp n) = refl
is_eintr_lem (errorf s n) = refl
is_eintr_lem (syscall s e) = refl
is_eintr_lem eof = refl
is_eintr_lem unexpected_eof = refl
is_eintr_lem deadline_exceeded = refl

abbrev stopped_if : Bool → Poller → Poller
stopped_if true p = record p { running = false }
stopped_if false p = p

stopped_twice : (b : Bool) (p : Poller) → stopped_if b (stopped_if true p) ≡ stopped_if true p
stopped_twice true p = refl
stopped_twice false p = refl

check_wakeup-stops :
    (evs : List EpollEvent) (w : Waiter)
    → (check_wakeup evs w).poller
      ≡ stopped_if (is_shut w.poller.cpuid && wakes w.poller.efd evs) w.poller
unfolding check_wakeup
check_wakeup-stops [] w = elim (Bool-cases (is_shut w.poller.cpuid)) [
  | inl h ↦ rw h refl
  | inr h ↦ rw h refl
]
check_wakeup-stops (ev ∷ evs) w = elim (Bool-cases (is_fd w.poller.efd ev.fd)) [
  | inr e ↦ rw (check_wakeup, e) (check_wakeup-stops evs w)
  | inl e ↦ elim (Bool-cases (is_shut w.poller.cpuid)) [
    | inl z ↦
        rw (check_wakeup, e, is_zero_lem, z)
          (check_wakeup-stops evs
              (record w { reads = suc w.reads; poller = record w.poller { running = false } })
            ∙ stopped_twice _ w.poller)
    | inr z ↦
        rw (check_wakeup, e, is_zero_lem, z)
          (check_wakeup-stops evs (record w { reads = suc w.reads })
            ∙ ap (λ b. stopped_if (b && wakes w.poller.efd evs) w.poller) z)
  ]
]

-- Both branches of a test.
branches : {A : Type 0} (P : A → Type 0) (b : Bool) {x y : A} → P x → P y → P (if b then x else y)
branches P true p q = p
branches P false p q = q

-- Two tests of the same condition.
both {ℓ κ} :
    {A : Type ℓ} {B : Type κ} (P : A → B → Type 0) (b : Bool) {x y : A} {z t : B}
    → (b ≡ true → P x z)
    → (b ≡ false → P y t)
    → P (if b then x else y) (if b then z else t)
both P true p q = p refl
both P false p q = q refl

running_served : (r : Bool) (l : List Answer) → r ≡ true → (if r then l else []) ≡ l
running_served true l h = refl
running_served false l h = cc

nothing_served : (r : Bool) → sent_for_all (if r then [] else []) ≡ []
nothing_served true = refl
nothing_served false = refl

-- The waits from a running loop on.
abbrev made : Poller → List Answer → List IoEvent
made p answers = sent_for_all (up_to (is_last p.cpuid p.efd) answers)

pass_events-served :
    (evs : List EpollEvent) (rest : List Answer) (w : Waiter)
    → w.poller.running ≡ true
    → (pass_events evs w).sent ++ sent_for_all (served (pass_events evs w).poller rest)
      ≡ w.sent ++ made w.poller (events evs ∷ rest)
unfolding pass_events
pass_events-served evs rest w h =
    elim (Bool-cases (is_shut w.poller.cpuid && wakes w.poller.efd evs)) [
      | inl e ↦ rw ((check_wakeup-keeps evs w).0, check_wakeup-stops evs w, e) (append-nil _)
      | inr e ↦
          rw ((check_wakeup-keeps evs w).0, check_wakeup-stops evs w, e)
            (append_assoc w.sent (event_of none evs ∷ []) _
              ∙ ap (λ l. w.sent ++ (event_of none evs ∷ sent_for_all l))
                  (running_served w.poller.running _ h))
    ]

-- What a wait that failed leads to, by whether the poller runs and the error is EINTR.
failed_served :
    (err : Error) (rest : List Answer) (w : Waiter) (r i : Bool)
    → is_interrupted err ≡ i
    → (r ≡ true → (wait_loop rest w).sent ≡ w.sent ++ made w.poller rest)
    → (if not r
        then w
        else if i
        then wait_loop rest w
        else record w { sent = w.sent ++ (event_of (some err) [] ∷ []) }).sent
      ≡ w.sent
        ++ sent_for_all (
            let l = up_to (is_last w.poller.cpuid w.poller.efd) rest in
            if r then (if not i then failed err ∷ [] else failed err ∷ l) else [])
failed_served err rest w false i e h = sym (append-nil w.sent)
failed_served err rest w true true e h = rw e (h refl)
failed_served err rest w true false e h = rw e refl

wait_loop-served :
    (answers : List Answer) (w : Waiter)
    → (wait_loop answers w).sent ≡ w.sent ++ sent_for_all (served w.poller answers)
unfolding wait_loop
wait_loop-served [] w =
    sym (ap (λ l. w.sent ++ l) (nothing_served w.poller.running) ∙ append-nil w.sent)
wait_loop-served (events evs ∷ rest) w =
    both (λ (v : Waiter) l. v.sent ≡ w.sent ++ sent_for_all l) w.poller.running
      (λ h. wait_loop-served rest (pass_events evs w) ∙ pass_events-served evs rest w h)
      (λ h. sym (append-nil w.sent))
wait_loop-served (failed err ∷ rest) w = rw (is_eintr_lem) (
    failed_served err rest w w.poller.running (is_interrupted err) refl (λ h.
      wait_loop-served rest w
      ∙ ap (λ l. w.sent ++ sent_for_all l) (running_served w.poller.running _ h)))

abbrev pub Untimed : List IoEvent → Type 0
Untimed [] = Unit
Untimed (x ∷ xs) = (x.timed_at ≡ zero_time) × Untimed xs

Untimed-sent_for : (x : Answer) (xs : List IoEvent) → Untimed xs → Untimed (sent_for x ++ xs)
Untimed-sent_for (events evs) xs h = (refl, h)
Untimed-sent_for (failed e) xs h = elim (Bool-cases (is_interrupted e)) [
  | inl k ↦ rw k h
  | inr k ↦ rw k (refl, h)
]

sent_for_all-Untimed : (l : List Answer) → Untimed (sent_for_all l)
sent_for_all-Untimed [] = tt
sent_for_all-Untimed (x ∷ xs) = Untimed-sent_for x (sent_for_all xs) (sent_for_all-Untimed xs)

pass_events-InBounds :
    (evs : List EpollEvent) (w : Waiter) → InBounds w.buffer → InBounds (pass_events evs w).buffer
unfolding pass_events
pass_events-InBounds evs w h =
    resize-InBounds (check_wakeup evs w).buffer (length evs) (rw ((check_wakeup-keeps evs w).1) h)

wait_loop-InBounds :
    (answers : List Answer) (w : Waiter) → InBounds w.buffer → InBounds (wait_loop answers w).buffer
unfolding wait_loop
wait_loop-InBounds [] w h = h
wait_loop-InBounds (events evs ∷ rest) w h =
    branches (λ (v : Waiter). InBounds v.buffer) w.poller.running
      (wait_loop-InBounds rest (pass_events evs w) (pass_events-InBounds evs w h)) h
wait_loop-InBounds (failed err ∷ rest) w h =
    branches (λ (v : Waiter). InBounds v.buffer) (not w.poller.running) h
      (branches (λ (v : Waiter). InBounds v.buffer) (is_eintr err) (wait_loop-InBounds rest w h) h)

-- Over any answers of its waits, epollWait sends run exactly one event for each answer that it gets
-- but EINTR, in their order: the events of a wait, or the error of one that failed, and never with a
-- time. It makes no wait unless the poller runs, and else goes on up to the first answer that is an
-- error other than EINTR, or has an event of the eventfd when the poller's cpuid is 0, that one
-- included. It keeps its buffer at 64 to 4096 entries.
pub epoll_wait_passes :
    (answers : List Answer) (p : Poller)
    → ((epoll_wait answers p).sent ≡ sent_for_all (served p answers))
      × Untimed (epoll_wait answers p).sent
      × InBounds (epoll_wait answers p).buffer
unfolding epoll_wait new_buffer
epoll_wait_passes answers p =
    let w : Waiter = record { poller = p; buffer = new_buffer; sent = []; reads = 0 } in
    let exact = wait_loop-served answers w in
    (
      exact,
      subst Untimed (sym exact) (sent_for_all-Untimed (served p answers)),
      wait_loop-InBounds answers w (omega arith),
    )
