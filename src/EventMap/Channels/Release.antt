-- ===== src/EventMap/Channels/Release.antt =====
-- dtype/dtype1.go, SendEvent1, with Async and Sync of dtype/dtype.go, which let its goroutine send.
use aionet.Common.{
  ℕ, ◌≡◌, ◌≢◌, ap, refl, false, List, [], ◌∷◌, none, ==_ne, same_text, same_text_refl, set_key,
  delete_key, get_key-set_key, get_key-delete_key,
}
use aionet.EventMap.{chan, ready_ch, HdpEvent, value}
use aionet.EventMap.Key
use aionet.EventMap.Reads.{get_ch, channel_of}
use aionet.EventMap.Channels.{Sent, ready, ready_channel, async, sync, send_event1}

-- The ready channel in the event.
abbrev pub waits_on : HdpEvent → ℕ
waits_on r = ready_channel (value Key.ready_ch r)

waits_on-send_event1 :
    (cs : List ℕ) (i c : ℕ) (req : HdpEvent) → waits_on (send_event1 cs i c req).0 ≡ c
unfolding send_event1 value ready_channel
waits_on-send_event1 cs i c req =
    rw (get_key-set_key Key.ready_ch Key.ready_ch (ready_ch c) req, same_text_refl Key.ready_ch)
      refl

waits_on-deleted : (r : HdpEvent) → waits_on (delete_key Key.ready_ch r) ≡ 0
unfolding value ready_channel
waits_on-deleted r =
    rw (get_key-delete_key Key.ready_ch Key.ready_ch r, same_text_refl Key.ready_ch) refl

result_is_not_ready : same_text Key.result_ch Key.ready_ch ≡ false
unfolding Key.result_ch Key.ready_ch
result_is_not_ready = refl

ready_is_not_result : same_text Key.ready_ch Key.result_ch ≡ false
unfolding Key.result_ch Key.ready_ch
ready_is_not_result = refl

waits_on-with_result :
    (ch : ℕ) (r : HdpEvent) → waits_on (set_key Key.result_ch (chan ch) r) ≡ waits_on r
unfolding value ready_channel
waits_on-with_result ch r =
    rw (get_key-set_key Key.result_ch Key.ready_ch (chan ch) r, result_is_not_ready) refl

get_ch-synced :
    (ch : ℕ) (r : HdpEvent)
    → get_ch none (delete_key Key.ready_ch (set_key Key.result_ch (chan ch) r)) ≡ ch
unfolding get_ch value channel_of
get_ch-synced ch r =
    rw
      (
        get_key-delete_key Key.ready_ch Key.result_ch (set_key Key.result_ch (chan ch) r),
        ready_is_not_result,
        get_key-set_key Key.result_ch Key.result_ch (chan ch) r,
        same_text_refl Key.result_ch,
      )
      refl

async-waiting :
    (r : HdpEvent) (c : ℕ)
    → c ≢ 0
    → waits_on r ≡ c
    → async r ≡ (delete_key Key.ready_ch r, ready c ∷ [])
unfolding async
async-waiting r c ne e = rw (e, ==_ne c 0 ne) refl

async-released : (r : HdpEvent) → waits_on r ≡ 0 → (async r).1 ≡ []
unfolding async
async-released r e = rw e refl

sync-waiting :
    (ch : ℕ) (r : HdpEvent) (c : ℕ)
    → c ≢ 0
    → waits_on r ≡ c
    → sync ch r ≡ (delete_key Key.ready_ch (set_key Key.result_ch (chan ch) r), ready c ∷ [])
unfolding sync
sync-waiting ch r c ne e = rw (waits_on-with_result ch r, e, ==_ne c 0 ne) refl

sync-released :
    (ch : ℕ) (r : HdpEvent) → waits_on r ≡ 0 → sync ch r ≡ (set_key Key.result_ch (chan ch) r, [])
unfolding sync
sync-released ch r e = rw (waits_on-with_result ch r, e) refl

-- `c` is signalled once: the first call, with r2 after it, signals c alone; after it neither Async
-- nor Sync signals any channel.
abbrev pub SignalsOnce : ℕ → HdpEvent × List Sent → Type 0
SignalsOnce c p =
    (p.1 ≡ ready c ∷ []) × ((async p.0).1 ≡ []) × ((later : ℕ) → (sync later p.0).1 ≡ [])

-- The goroutine of SendEvent1 that waits on the ready channel c gets its signal from the first call
-- of Async or Sync on the request, whatever channels and request there are, and from no call of
-- either after it; with Sync the request has the channel that Sync returns as its result channel.
pub released_once :
    (cs : List ℕ) (i c ch : ℕ) (req : HdpEvent)
    → c ≢ 0
    → SignalsOnce c (async (send_event1 cs i c req).0)
      × SignalsOnce c (sync ch (send_event1 cs i c req).0)
      × (get_ch none (sync ch (send_event1 cs i c req).0).0 ≡ ch)
released_once cs i c ch req ne =
    let r = (send_event1 cs i c req).0 in
    let e = waits_on-send_event1 cs i c req in
    let gone = waits_on-deleted r in
    let gone2 = waits_on-deleted (set_key Key.result_ch (chan ch) r) in
    rw (async-waiting r c ne e, sync-waiting ch r c ne e)
      (
        (
          refl,
          async-released (delete_key Key.ready_ch r) gone,
          λ l. ap (λ p. p.1) (sync-released l (delete_key Key.ready_ch r) gone),
        ),
        (
          refl,
          async-released (delete_key Key.ready_ch (set_key Key.result_ch (chan ch) r)) gone2,
          λ l.
              ap (λ p. p.1)
                (sync-released l (delete_key Key.ready_ch (set_key Key.result_ch (chan ch) r))
                  gone2),
        ),
        get_ch-synced ch r,
      )
