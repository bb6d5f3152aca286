-- ===== src/Transport/Writer/Queue.antt =====
-- transport1.go, hdpWrite2: the channel tpt[W] of capacity 1 (NewHdpDialer and NewHdpListener of
-- base.go), from which run receives, and on which its handlers and other goroutines send.
use aionet.Common.{
  ℕ, ◌≡◌, ◌≢◌, ◌<◌, ◌∙◌, ◌==◌, ap, refl, sym, arith, Bool, true, false, if◌then◌else◌, List, [],
  ◌∷◌, ◌++◌, length, none, is_some, ret, ==_refl,
}
use aionet.RingBuffer.{RingBuffer, next_seq_num}
use aionet.Buffers.{is_full, sn_is_empty}
use aionet.EventMap.{HdpEvent, value}
use aionet.EventMap.Key
use aionet.EventMap.Channels.{Sent, event, ready}
use aionet.EventMap.Reads
use aionet.EventMap.Reads.{get_err, get_flag2}
use aionet.Transport.Connection.{write_request}
use aionet.Transport.Writer.{Kernel, Writer, deadline_key}
use aionet.Transport.Writer.Handlers.{handle, handle_flag, put_or_deadline}
use aionet.Transport.Writer.Requests.{
  fresh_request, numbered_request, queued, write_request_lem, put_frame-numbers,
}

-- The channel's events; the sends on it of the handler that run is inside of, in order, that are
-- not made yet; whether run returned; and the writer and the system.
pub record Line (S : Type 0) : Type 0 where
  pub queue : List HdpEvent
  pub pending : List HdpEvent
  pub ended : Bool
  pub writer : Writer
  pub system : S

-- The events sent on a channel.
unfoldable pub sent_on : ℕ → List Sent → List HdpEvent
sent_on ch [] = []
sent_on ch (event c e ∷ es) = let rest = sent_on ch es in if c == ch then e ∷ rest else rest
sent_on ch (ready c ∷ es) = sent_on ch es

-- A line whose run goes on.
abbrev pub running : {S : Type 0} → List HdpEvent → List HdpEvent → Writer → S → Line S
running queue pending w s = record {
  queue = queue;
  pending = pending;
  ended = false;
  writer = w;
  system = s;
}

module _ {S : Type 0} (k : Kernel S) (crc16 : List ℕ → ℕ) (fuel : ℕ) where
  -- A send on the channel waits until it has room. run receives when no send of its handler is
  -- left, returns on an event with an error, and else handles it: what the handler sends on this
  -- channel is pending, and what it sends on others, and does to the writer, is done.
  pub data Step (a b : Line S) : Type 0 where
    arrives :
        (e : HdpEvent)
        → length a.queue < 1
        → b ≡ record a { queue = a.queue ++ (e ∷ []) }
        → Step a b
    returns :
        (e : HdpEvent) (rest : List HdpEvent)
        → a.ended ≡ false
        → a.pending ≡ []
        → a.queue ≡ e ∷ rest
        → is_some (get_err none e) ≡ true
        → b ≡ record a { queue = rest; ended = true }
        → Step a b
    handles :
        (e : HdpEvent) (rest : List HdpEvent) (w : Writer) (s : S) (news : List Sent)
        → a.ended ≡ false
        → a.pending ≡ []
        → a.queue ≡ e ∷ rest
        → is_some (get_err none e) ≡ false
        → handle k crc16 fuel e a.writer a.system ≡ ret (w, s)
        → w.sent ≡ a.writer.sent ++ news
        → b
          ≡ record a { queue = rest; pending = sent_on a.writer.tpt_w news; writer = w; system = s }
        → Step a b
    sends :
        (e : HdpEvent) (rest : List HdpEvent)
        → a.pending ≡ e ∷ rest
        → length a.queue < 1
        → b ≡ record a { queue = a.queue ++ (e ∷ []); pending = rest }
        → Step a b

  pub data Reach (a : Line S) : Line S → Type 0 where
    here : Reach a a
    more : {b c : Line S} → Reach a b → Step b c → Reach a c

  handle-put :
      (w : Writer) (ring : RingBuffer) (n p ch : ℕ) (s : S)
      → is_full w.buffer ≡ false
      → sn_is_empty w.peer_seq_num ≡ true
      → next_seq_num w.ring ≡ ret (ring, n, none)
      → handle k crc16 fuel (fresh_request p ch) w s ≡ ret (queued ring n p ch w, s)
  unfolding handle handle_flag put_or_deadline get_flag2 Reads.flag2_of value Key.flag2 Key.frame
      Key.result_ch deadline_key
  handle-put w ring n p ch s room no_peer next =
      rw (put_frame-numbers w ring n p ch room no_peer next) refl

  no_error : (p ch : ℕ) → is_some (get_err none (fresh_request p ch)) ≡ false
  unfolding get_err Reads.error_of value Key.error Key.flag2 Key.frame Key.result_ch
  no_error p ch = refl

  sent_on_self : (ch : ℕ) (e : HdpEvent) → sent_on ch (event ch e ∷ []) ≡ e ∷ []
  unfolding sent_on
  sent_on_self ch e = rw (==_refl ch) refl

  no-Step : (a b : Line S) (e f : HdpEvent) → a.queue ≡ f ∷ [] → a.pending ≡ e ∷ [] → ¬ (Step a b)
  no-Step a b e f q r (arrives e1 h c) = let full = rw q at h in omega (arith, full)
  no-Step a b e f q r (returns e1 rest h c d g i) = cc
  no-Step a b e f q r (handles e1 rest w s news h c d g i j l) = cc
  no-Step a b e f q r (sends e1 rest h c d) = let full = rw q at c in omega (arith, full)

  -- The request of a Write, made with a ready channel c that is not nil, is in the channel of a
  -- writer whose buffer has room and which keeps no number of the peer's, and whose ring gives the
  -- number n. Then run receives the request, and when any event f arrives, a number of the peer's
  -- or a second write, before putFrame sends the request on, the writer has no step left: putFrame
  -- waits for room in the channel that only run empties.
  pub put_deadlocks :
      (w : Writer) (ring : RingBuffer) (tpt : List ℕ) (c p ch n : ℕ) (s : S) (f : HdpEvent)
      → c ≢ 0
      → is_full w.buffer ≡ false
      → sn_is_empty w.peer_seq_num ≡ true
      → next_seq_num w.ring ≡ ret (ring, n, none)
      → Reach
          (running (write_request tpt c p ch ∷ []) [] w s)
          (running (f ∷ []) (numbered_request n p ch ∷ []) (queued ring n p ch w) s)
        × ((b : Line S)
            → ¬ (Step (running (f ∷ []) (numbered_request n p ch ∷ []) (queued ring n p ch w) s) b))
  put_deadlocks w ring tpt c p ch n s f ne room no_peer next =
      let same = write_request_lem tpt c p ch ne in
      let received : Step (running (write_request tpt c p ch ∷ []) [] w s)
          (running [] (numbered_request n p ch ∷ []) (queued ring n p ch w) s) =
        handles (write_request tpt c p ch) [] (queued ring n p ch w) s
          (event w.tpt_w (numbered_request n p ch) ∷ []) refl refl refl
          (ap (λ r. is_some (get_err none r)) same ∙ no_error p ch)
          (ap (λ r. handle k crc16 fuel r w s) same ∙ handle-put w ring n p ch s room no_peer next)
          refl
          (ap (λ q. running [] q (queued ring n p ch w) s)
            (sym (sent_on_self w.tpt_w (numbered_request n p ch)))) in
      (
        more (more here received) (arrives f (omega arith) refl),
        λ b. no-Step _ b (numbered_request n p ch) f refl refl,
      )
