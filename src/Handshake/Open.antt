-- ===== src/Handshake/Open.antt =====
-- dialer.go, Dial, and listener.go, Accept and onAccept: the requests of a side to its reader (0)
-- and its writer (1) until its connection is open.
pub mod Order
pub mod Run
mod Tests
use aionet.Common.{
  ℕ, zero, suc, ◌≡◌, ◌∙◌, ap, refl, arith, true, false, List, [], ◌∷◌, length, take, map, Option,
  none, some, is_some, Error, if◌then◌else◌, ◌⊎◌, inl, inr, errno, unexpected_eof, Bool-cases, Text,
  ascii, ◌==◌, Bool,
}
use aionet.EventMap.{HdpEvent, Value, integer, state1, int, string, addr, value}
use aionet.EventMap.Key
use aionet.EventMap.Lookups
use aionet.EventMap.Build.{with_args, new_event}
use aionet.EventMap.Reads.{get_err, get_flag1}
use aionet.Dtype.{
  hdp_accept, hdp_open1, hdp_connect, hdp_connect_ack, hdp_accept_ack, hdp_connected,
}

unfoldable pub window_size_key : Text
window_size_key = ascii "windowSize"

unfoldable pub raddr_key : Text
raddr_key = ascii "raddr"

-- The error of the call, none when it returns a connection; the requests that were answered, those
-- sent to open both sides, and the two goroutines after the call.
pub record Result (S : Type 0) : Type 0 where
  pub err : Option Error
  pub asked : List (ℕ × HdpEvent)
  pub opened : List (ℕ × HdpEvent)
  pub after : S

-- `ev.With(flag)`.
unfoldable pub with_flag1 : ℕ → HdpEvent → HdpEvent
unfolding with_args
with_flag1 flag ev = with_args (integer state1 flag ∷ []) (some ev)

-- What the select of Accept receives.
pub data Wake : Type 0 where
  timed_out : Wake
  answered : Option Error → Wake

-- The errors after which Accept asks again.
abbrev pub is_retried : Error → Bool
is_retried unexpected_eof = true
is_retried (errno n) = n == 4
is_retried e = false

-- `answer` is what the goroutine of a side sends back on the channel that Sync made for the
-- request.
module _ {S : Type 0} (answer : S → ℕ → HdpEvent → HdpEvent × S) where
  unfoldable pub refused : HdpEvent → ℕ → HdpEvent → S → Result S
  refused res side req s = record {
    err = get_err none res;
    asked = (side, req) ∷ [];
    opened = [];
    after = s;
  }

  -- The requests that open both sides with the last answer.
  unfoldable pub open_both : HdpEvent → List (ℕ × HdpEvent)
  unfolding with_flag1
  open_both ev = let ev1 = with_flag1 hdp_open1 ev in (0, ev1) ∷ (1, with_flag1 hdp_open1 ev1) ∷ []

  -- A request, and then those with the sides and flags of the list, each with the answer before it,
  -- up to one whose answer has an error.
  unfoldable pub ask : List (ℕ × ℕ) → ℕ → HdpEvent → S → Result S
  unfolding refused open_both
  ask [] side req s =
      let (res, s1) = answer s side req in
      if is_some (get_err none res)
      then refused res side req s1
      else record { err = none; asked = (side, req) ∷ []; opened = open_both res; after = s1 }
  ask ((side1, flag) ∷ rest) side req s =
      let (res, s1) = answer s side req in
      let later = ask rest side1 (with_flag1 flag res) s1 in
      if is_some (get_err none res)
      then refused res side req s1
      else record later { asked = (side, req) ∷ later.asked }

  -- `Dial`, with what ResolveUDPAddr returns.
  unfoldable pub dial : Error ⊎ ℕ → S → Result S
  unfolding ask new_event
  dial (inl e) s = record { err = some e; asked = []; opened = []; after = s }
  dial (inr a) s =
      ask ((0, hdp_connect_ack) ∷ (1, hdp_accept_ack) ∷ (0, hdp_connected) ∷ []) 1
        (new_event (
          integer state1 hdp_connect
          ∷ string Key.data_mark
          ∷ string window_size_key
          ∷ integer int 16
          ∷ string raddr_key
          ∷ addr a
          ∷ []))
        s

  -- `onAccept`.
  unfoldable pub on_accept : S → Result S
  unfolding ask new_event
  on_accept s =
      ask ((1, hdp_connect_ack) ∷ (0, hdp_accept_ack) ∷ (1, hdp_connected) ∷ []) 0
        (new_event (integer state1 hdp_accept ∷ [])) s

  -- `Accept`, over what its loop receives; none while it still waits.
  unfoldable pub accept : List Wake → S → Option (Result S)
  unfolding on_accept
  accept [] s = none
  accept (timed_out ∷ ws) s = accept ws s
  accept (answered none ∷ ws) s = some (on_accept s)
  accept (answered (some e) ∷ ws) s =
      let later = accept ws s in
      if is_retried e
      then later
      else some (record { err = some e; asked = []; opened = []; after = s })
