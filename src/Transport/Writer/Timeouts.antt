-- ===== src/Transport/Writer/Timeouts.antt =====
-- transport1.go, hdpWrite2: a frame whose acknowledgement does not come in time.
use aionet.Common.{ℕ, ◌≡◌, refl, ap, List, [], ◌∷◌, ◌++◌, none, ret}
use aionet.EventMap.{HdpEvent, integer, state2}
use aionet.EventMap.Key
use aionet.EventMap.Lookups.{value-set_key_self}
use aionet.EventMap.Build
use aionet.EventMap.Reads
use aionet.EventMap.Channels.{event}
use aionet.Common.{set_key}
use aionet.Transport.Writer.{Kernel, Writer, Waiting, send}
use aionet.Transport.Writer.Handlers.{handle, handle_flag, frame_timed_out}

repeat_request : HdpEvent → HdpEvent
repeat_request r = set_key Key.flag2 (integer state2 15) r

flag-repeat_request : (r : HdpEvent) → Reads.get_flag2 none (repeat_request r) ≡ 15
unfolding repeat_request Reads.get_flag2 Reads.flag2_of
flag-repeat_request r = ap Reads.flag2_of (value-set_key_self Key.flag2 (integer state2 15) r)

module _ {S : Type 0} (k : Kernel S) (crc16 : List ℕ → ℕ) (fuel : ℕ) where
  -- When a frame's acknowledgement does not come in time, its goroutine only sends the writer a
  -- request to repeat it, and whatever state the writer is in, it handles that request by doing
  -- nothing: no frame is written again, and the ring and the buffer keep the frame.
  pub repeat_ignored :
      (x : Waiting) (w v : Writer) (s : S)
      → (r : HdpEvent) × (frame_timed_out x w
          ≡ record w { sent = w.sent ++ (event w.tpt_w r ∷ []) })
        × (handle k crc16 fuel r v s ≡ ret (v, s))
  unfolding frame_timed_out send handle handle_flag repeat_request Build.with_args Build.add
      Build.note Build.is_data_mark Build.keep_error
  repeat_ignored x w v s = (
    repeat_request x.req,
    refl,
    ap (λ f. handle_flag k crc16 fuel f (repeat_request x.req) v s) (flag-repeat_request x.req),
  )
