-- ===== src/Epoller/Events/Bounds.antt =====
-- epoller/poller.go: the size of the event buffer over any sequence of waits.
use aionet.Common.{ℕ, ◌+◌, ◌≤◌, ◌<◌, ◌≡◌, ◌⊎◌, List, [], ◌∷◌, arith}
use aionet.Epoller.Events.{EventBuffer, new_buffer, resize, max_events, min_events}

-- The calls of resize after waits that return these numbers of events.
abbrev pub resize_all : EventBuffer → List ℕ → EventBuffer
resize_all b [] = b
resize_all b (n ∷ ns) = resize_all (resize b n) ns

pub record InBounds (b : EventBuffer) : Type 0 where
  pub low : min_events ≤ b.size
  pub high : b.size ≤ max_events

pub resize-InBounds : (b : EventBuffer) (n : ℕ) → InBounds b → InBounds (resize b n)
unfolding resize
resize-InBounds b n v = ground arith

resize_all-InBounds : (b : EventBuffer) (ns : List ℕ) → InBounds b → InBounds (resize_all b ns)
resize_all-InBounds b [] v = v
resize_all-InBounds b (n ∷ ns) v = resize_all-InBounds (resize b n) ns (resize-InBounds b n v)

-- The buffer has 64 to 4096 entries after any sequence of waits.
pub event_buffer_bounded : (ns : List ℕ) → InBounds (resize_all new_buffer ns)
unfolding new_buffer
event_buffer_bounded ns = resize_all-InBounds new_buffer ns (omega arith)

-- From a size within the bounds, a resize changes the size only when two earlier calls and this one
-- all saw the buffer full, or all saw at least 16 free entries, and the last change is at least 3
-- calls ago; it grows by at most 16 in the first case and shrinks by at most 16 in the second.
pub resize_cases :
    (b : EventBuffer) (n : ℕ)
    → InBounds b
    → ((resize b n).size ≡ b.size)
      ⊎ ((2 < b.since_last_resize)
          × (((b.size ≤ n)
                × (b.size ≤ b.log0)
                × (b.size ≤ b.log1)
                × (b.size ≤ (resize b n).size)
                × ((resize b n).size ≤ b.size + 16))
              ⊎ ((n + 16 ≤ b.size)
                  × (b.log0 + 16 ≤ b.size)
                  × (b.log1 + 16 ≤ b.size)
                  × ((resize b n).size ≤ b.size)
                  × (b.size ≤ (resize b n).size + 16))))
unfolding resize
resize_cases b n v = grind arith
