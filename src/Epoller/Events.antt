-- ===== src/Epoller/Events.antt =====
-- epoller/poller.go: eventBuffer, the array that epoll_wait fills. Only its length matters: `size`
-- is `len(b.this)`.
pub mod Bounds
use aionet.Common.{ℕ, ◌+◌, ◌-◌, Bool, true, false, not, ◌&&◌, ltb, leb, if◌then◌else◌}

-- `maxEvents` and `minEvents` of epoller/const.go.
abbrev pub max_events : ℕ
max_events = 4096

abbrev pub min_events : ℕ
min_events = 64

pub record EventBuffer : Type 0 where
  pub size : ℕ
  pub log0 : ℕ
  pub log1 : ℕ
  pub since_last_resize : ℕ

unfoldable pub new_buffer : EventBuffer
new_buffer = record { size = min_events; log0 = 0; log1 = 0; since_last_resize = 0 }

-- The comparison with `len(b.this)-16`, which is negative below 16, is written `ecount + 16 > len`.
unfoldable pub down_sizable : EventBuffer → ℕ → Bool
down_sizable b ecount =
    leb (ecount + 16) b.size && (leb (b.log0 + 16) b.size && leb (b.log1 + 16) b.size)

unfoldable pub up_sizable : EventBuffer → ℕ → Bool
up_sizable b ecount = leb b.size ecount && (leb b.size b.log0 && leb b.size b.log1)

-- `max_events - size` does not go below 0 within the bounds; a negative length would panic in make.
abbrev pub grown : ℕ → ℕ
grown size = if ltb max_events (size + 16) then size + (max_events - size) else size + 16

abbrev pub shrunk : ℕ → ℕ
shrunk size = if ltb size (min_events + 16) then min_events else size - 16

unfoldable pub resize : EventBuffer → ℕ → EventBuffer
unfolding up_sizable down_sizable
resize b ecount =
    let b' =
      (if ltb 2 b.since_last_resize
        then (if up_sizable b ecount
            then record b { since_last_resize = 0; size = grown b.size }
            else if down_sizable b ecount
            then record b { since_last_resize = 0; size = shrunk b.size }
            else b)
        else b) in
    record b' { log0 = b.log1; log1 = ecount; since_last_resize = b'.since_last_resize + 1 }
