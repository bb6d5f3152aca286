-- ===== src/Epoller/Race/Laws.antt =====
-- epoller/poller.go: the methods of ioRace and their effects: which timers they stop and whom they
-- answer.
use native.Mathlib.Decide.{ℕ_discrete}
use aionet.Common.{
  remove, insert, ℕ, ◌≡◌, ◌≢◌, refl, sym, ap, ◌∙◌, false, Option, none, some, List, [], ◌∷◌, arith,
  Error, ==_ne, ==_refl,
}
use aionet.Epoller.{IoRace, reply, close_ch, Trace}
use aionet.Epoller.Race.{cancel_deadline, cancel_each, cancel_deadlines, do_io_ready}

abbrev pub Absent : ℕ → List (ℕ × ℕ) → Type 0
Absent k [] = Unit {0}
Absent k ((j, c) ∷ m) = (j ≢ k) × Absent k m

-- A Go map has each key once.
abbrev pub Distinct : List (ℕ × ℕ) → Type 0
Distinct [] = Unit {0}
Distinct ((k, c) ∷ m) = Absent k m × Distinct m

-- The trace after the channels of `m` are closed.
abbrev pub closing : List (ℕ × ℕ) → Trace → Trace
closing [] tr = tr
closing ((k, c) ∷ m) tr = closing m (close_ch c ∷ tr)

remove-Absent : (k : ℕ) (m : List (ℕ × ℕ)) → Absent k m → remove k m ≡ m
remove-Absent k [] h = refl
remove-Absent k ((j, c) ∷ m) (ne, h) = rw (==_ne j k ne, remove-Absent k m h)

cancel_first :
    (k c : ℕ) (m : List (ℕ × ℕ)) (r : IoRace) (tr : Trace)
    → Absent k m
    → r.done_ch ≡ some ((k, c) ∷ m)
    → cancel_deadline k (r, tr) ≡ (record r { done_ch = some m }, close_ch c ∷ tr)
unfolding cancel_deadline
cancel_first k c m r tr a e = ground (arith, remove-Absent k m a)

cancel_each_lem :
    (m : List (ℕ × ℕ)) (r : IoRace) (tr : Trace)
    → Distinct m
    → r.done_ch ≡ some m
    → cancel_each m (r, tr) ≡ (record r { done_ch = some [] }, closing m tr)
unfolding cancel_each
cancel_each_lem [] r tr d e = λ i. (record r { done_ch = e i }, tr)
cancel_each_lem ((k, c) ∷ m) r tr (a, d) e =
    ap (cancel_each m) (cancel_first k c m r tr a e)
    ∙ cancel_each_lem m (record r { done_ch = some m }) (close_ch c ∷ tr) d refl

-- cancelDeadlines closes the channel of every timer that runs, once, and empties the map. A waiting
-- request is answered with the error and forgotten, and the error with it; with no waiting request
-- the error stays.
pub cancel_deadlines_lem :
    (err : Option Error) (r : IoRace) (tr : Trace) (m : List (ℕ × ℕ))
    → Distinct m
    → r.done_ch ≡ some m
    → cancel_deadlines err (r, tr) ≡ elim r.ch [
      | none ↦ (record r { err = err; done_ch = some [] }, closing m tr)
      | some c ↦ (record r { err = none; ch = none; done_ch = some [] }, reply c err ∷ closing m tr)
    ]
unfolding cancel_deadlines
cancel_deadlines_lem err r tr m d e =
    ground (arith, cancel_each_lem m (record r { err = err }) tr d e)

-- An io-ready event answers the waiting request with no error, once, stops every timer, and leaves
-- neither an error nor readiness behind.
pub do_io_ready_lem :
    (r : IoRace) (tr : Trace) (m : List (ℕ × ℕ)) (c : ℕ)
    → Distinct m
    → r.done_ch ≡ some m
    → r.ch ≡ some c
    → do_io_ready (r, tr) ≡ (
      record r { err = none; ready = false; ch = none; done_ch = some [] },
      reply c none ∷ closing m tr,
    )
unfolding do_io_ready
do_io_ready_lem r tr m c d e w =
    rw (cancel_deadlines_lem none (record r { err = none; ready = false }) tr m d e, w)

insert-Absent : (j k c : ℕ) (m : List (ℕ × ℕ)) → Absent j m → k ≢ j → Absent j (insert k c m)
insert-Absent j k c [] h ne = (ne, tt)
insert-Absent j k c ((i, v) ∷ m) (a, h) ne = ground (arith, insert-Absent j k c m h ne)

pub insert-Distinct : (k c : ℕ) (m : List (ℕ × ℕ)) → Distinct m → Distinct (insert k c m)
insert-Distinct k c [] d = (tt, tt)
insert-Distinct k c ((j, v) ∷ m) (a, d) = elim (ℕ_discrete j k) [
  | yes e ↦ rw (e, ==_refl k) (rw e at a, d)
  | no ne ↦ rw (==_ne j k ne) (insert-Absent j k c m a (λ e. ne (sym e)), insert-Distinct k c m d)
]
