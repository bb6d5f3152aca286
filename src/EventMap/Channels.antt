-- ===== src/EventMap/Channels.antt =====
-- dtype/dtype.go and dtype/dtype1.go, the methods of events, EventCh and MultiCh that send: Async,
-- Respond, Respond1, Sync, Put, Put1, Get and SendEvent. What is sent is returned, in order; a send
-- to a full channel waits there.
pub mod Replies
pub mod Release
use aionet.Common.{
  ℕ, Bool, true, List, [], ◌∷◌, ◌++◌, Option, none, some, ◌==◌, not, if◌then◌else◌, Text, set_key,
  delete_key, Go, index,
}
use aionet.EventMap.{Value, nil, bool, chan, ready_ch, multi_ch, HdpEvent, value}
use aionet.EventMap.Key
use aionet.EventMap.Build.{add, add_ch, delete, new_event}
use aionet.EventMap.Reads.{get_ch}

-- An event sent on a channel, or true on a ready channel.
pub data Sent : Type 0 where
  event : ℕ → HdpEvent → Sent
  ready : ℕ → Sent

-- `r["readyCh"].(chan bool)`, 0 for nil.
unfoldable pub ready_channel : Value → ℕ
ready_channel (ready_ch c) = c
ready_channel v = 0

-- `Async`.
unfoldable pub async : HdpEvent → HdpEvent × List Sent
unfolding ready_channel value
async r =
    let c = ready_channel (value Key.ready_ch r) in
    (delete_key Key.ready_ch r, if c == 0 then [] else ready c ∷ [])

-- `Sync`, with the channel that it makes and returns.
unfoldable pub sync : ℕ → HdpEvent → HdpEvent × List Sent
unfolding ready_channel value
sync ch r =
    let r1 = set_key Key.result_ch (chan ch) r in
    let c = ready_channel (value Key.ready_ch r1) in
    if c == 0 then (r1, []) else (delete_key Key.ready_ch r1, ready c ∷ [])

-- `Respond`.
unfoldable pub respond : HdpEvent → HdpEvent × List Sent
unfolding get_ch delete
respond r =
    let alt = get_ch (some Key.alt_ch) r in
    let ch = get_ch none r in
    if not (ch == 0)
    then (r, event ch r ∷ [])
    else if not (alt == 0)
    then (delete (Key.alt_ch ∷ []) r, event alt (delete (Key.alt_ch ∷ []) r) ∷ [])
    else (r, [])

-- `Respond1`.
unfoldable pub respond1 : HdpEvent → ℕ → HdpEvent → List Sent
unfolding get_ch
respond1 res alt r =
    let ch = get_ch none r in
    if not (ch == 0) then event ch res ∷ [] else if not (alt == 0) then event alt res ∷ [] else []

-- `Put` on the channel ch.
unfoldable pub put : List Value → ℕ → List Sent
unfolding add
put args ch = event ch (add args ((Key.put, bool true) ∷ [])).0 ∷ []

-- `Put1`, with what the event is afterwards.
unfoldable pub put1 : HdpEvent → ℕ → HdpEvent × List Sent
put1 req ch = (set_key Key.put (bool true) req, event ch (set_key Key.put (bool true) req) ∷ [])

abbrev pub nil_keys : List Text → HdpEvent → HdpEvent
nil_keys [] r = r
nil_keys (k ∷ ks) r = nil_keys ks (set_key k nil r)

abbrev pub query_of : List Text → HdpEvent → HdpEvent
query_of [] r = set_key Key.get_all (bool true) r
query_of (k ∷ ks) r = nil_keys (k ∷ ks) (set_key Key.get (bool true) r)

-- `Get` on the channel ch, with the channel that it makes and returns.
unfoldable pub get : List Text → ℕ → ℕ → List Sent
unfolding add_ch
get keys result ch = event ch (query_of keys (add_ch [] result [])) ∷ []

-- A goroutine that waits for true on `ready` and then sends the request on `target`.
pub record Waiter : Type 0 where
  pub ready : ℕ
  pub target : Go ℕ

-- `SendEvent1` on the channels cs, with the ready channel that it makes, and its goroutine.
unfoldable pub send_event1 : List ℕ → ℕ → ℕ → HdpEvent → HdpEvent × Waiter
send_event1 cs i c req =
    (set_key Key.ready_ch (ready_ch c) req, record { ready = c; target = index cs i })

-- `SendEvent`.
unfoldable pub send_event : List ℕ → ℕ → ℕ → List Value → HdpEvent × Waiter
unfolding send_event1 new_event
send_event cs i c args = send_event1 cs i c (new_event args)
