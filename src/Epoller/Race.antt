-- ===== src/Epoller/Race.antt =====
-- epoller/poller.go: ioRace, one side (reading or writing) of a watched descriptor, and ioReq. A
-- method takes and returns the race and the trace. The parameter `mode` of the code only serves log
-- lines. A range over the map goes in the list's order here, and in any order in Go.
pub mod Laws
use aionet.Common.{
  lookup, remove, insert, ℕ, ◌+◌, Bool, true, false, not, ◌&&◌, Option, none, some, List, [], ◌∷◌,
  ◌==◌, ltb, map, if◌then◌else◌, Error, u16, is_some, Go, ret, panics, raised,
}
use aionet.Epoller.{IoReq, IoEvent, IoRace, Effect, reply, close_ch, Trace, zero_time}

abbrev pub lookup_done : ℕ → Option (List (ℕ × ℕ)) → Option ℕ
lookup_done k none = none
lookup_done k (some m) = lookup k m

abbrev pub remove_done : ℕ → Option (List (ℕ × ℕ)) → Option (List (ℕ × ℕ))
remove_done k none = none
remove_done k (some m) = some (remove k m)

unfoldable pub cancel_deadline : ℕ → IoRace × Trace → IoRace × Trace
cancel_deadline dl_ref (r, tr) = elim (lookup_done dl_ref r.done_ch) [
  | none ↦ (r, tr)
  | some ch ↦ (record r { done_ch = remove_done dl_ref r.done_ch }, close_ch ch ∷ tr)
]

unfoldable pub delete_result_ch : Option Error → IoRace × Trace → IoRace × Trace
delete_result_ch err (r, tr) =
    (record r { ch = none; err = none }, elim r.ch [ none ↦ tr | some ch ↦ reply ch err ∷ tr ])

-- `if r.ch != nil { go r.deleteResultCh(mode, err)() }`.
abbrev pub answer : Option Error → IoRace × Trace → IoRace × Trace
answer err (r, tr) = if is_some r.ch then delete_result_ch err (r, tr) else (r, tr)

-- The loop of cancelDeadlines over the keys of the map.
unfoldable pub cancel_each : List (ℕ × ℕ) → IoRace × Trace → IoRace × Trace
cancel_each [] s = s
cancel_each ((dl_ref, ch) ∷ m) s = cancel_each m (cancel_deadline dl_ref s)

unfoldable pub cancel_deadlines : Option Error → IoRace × Trace → IoRace × Trace
unfolding cancel_each cancel_deadline delete_result_ch
cancel_deadlines err (r, tr) = elim r.done_ch [
  | none ↦ (record r { err = err }, tr)
  | some m ↦ answer err (cancel_each m (record r { err = err }, tr))
]

unfoldable pub cancel_io_by_key : ℕ → Option Error → IoRace × Trace → IoRace × Trace
unfolding cancel_deadline delete_result_ch
cancel_io_by_key dl_ref err (r, tr) =
    if is_some r.done_ch then answer err (cancel_deadline dl_ref (r, tr)) else (r, tr)

unfoldable pub do_io_ready : IoRace × Trace → IoRace × Trace
unfolding cancel_deadlines
do_io_ready (r, tr) =
    answer none (cancel_deadlines none (record r { err = none; ready = false }, tr))

unfoldable pub do_io_timeout : IoEvent → IoRace × Trace → IoRace × Trace
unfolding cancel_deadline delete_result_ch
do_io_timeout ev (r, tr) =
    if not (r.timed_at == zero_time) && ltb r.timed_at ev.timed_at
    then (r, tr)
    else if is_some r.done_ch
    then answer ev.err (cancel_deadline ev.dl_ref (record r { err = ev.err }, tr))
    else (record r { err = ev.err }, tr)

-- `handle`.
unfoldable pub handle_race : ℕ → Option Error → IoRace × Trace → IoRace × Trace
unfolding cancel_deadlines cancel_io_by_key
handle_race dl_ref err (r, tr) = elim err [
  | none ↦ cancel_deadlines none (record r { err = none }, tr)
  | some e ↦ cancel_io_by_key dl_ref (some e) (record r { err = some e }, tr)
]

-- newDoneCh on the fresh channel `ch`: the race and the deadline's number.
unfoldable pub new_done_ch : ℕ → IoRace → Go (IoRace × ℕ)
new_done_ch ch r =
    let dl_ref = u16 (r.dl_ref + 1) in
    elim r.done_ch [
      | none ↦ panics (raised "assignment to entry in nil map")
      | some m ↦ ret (record r { dl_ref = dl_ref; done_ch = some (insert dl_ref ch m) }, dl_ref)
    ]

-- ioReq.sendError, run by `go`.
unfoldable pub send_error : IoReq → Option Error → Trace → Trace
send_error r err tr = elim r.ch [ none ↦ tr | some ch ↦ reply ch err ∷ tr ]
