-- ===== src/Transport/Connection.antt =====
-- conn.go: the requests that the methods of HdpConn send to its reader and writer, as they are once
-- the goroutine of SendEvent may send them. `c` is the ready channel that SendEvent makes and `ch`
-- the result channel that Sync makes.
use aionet.Common.{ℕ, List, [], ◌∷◌, Option, none, Error, Text, ascii}
use aionet.EventMap.{Value, string, bytes, frame_pointer, integer, state2, HdpEvent, IntType, Float}
use aionet.EventMap.Key
use aionet.EventMap.Channels.{send_event, sync, async}
use aionet.EventMap.Reads.{retval, get_err}

abbrev pub data_mark : Value
data_mark = string Key.data_mark

unfoldable pub deadline_key : Text
deadline_key = ascii "deadline"

module _ (tpt : List ℕ) (c : ℕ) where
  -- `Close`.
  unfoldable pub close_request : HdpEvent
  unfolding send_event async
  close_request = (async (send_event tpt 1 c (integer state2 3 ∷ [])).0).0

  -- `ReadHdr`.
  unfoldable pub read_hdr_request : HdpEvent
  unfolding send_event async
  read_hdr_request =
      (async
        (send_event tpt 0 c (integer state2 12 ∷ data_mark ∷ string Key.bytes ∷ bytes [] ∷ [])).0).0

  -- `Read` into the slice b.
  unfoldable pub read_request : List ℕ → ℕ → HdpEvent
  unfolding send_event sync
  read_request b ch =
      (sync ch
        (send_event tpt 0 c (integer state2 12 ∷ data_mark ∷ string Key.bytes ∷ bytes b ∷ [])).0).0

  -- `Write` of the frame behind a pointer, which NewFrame makes.
  unfoldable pub write_request : ℕ → ℕ → HdpEvent
  unfolding send_event sync
  write_request p ch =
      (sync ch
        (send_event tpt 1 c
          (integer state2 22 ∷ data_mark ∷ string Key.frame ∷ frame_pointer p ∷ [])).0).0

  -- `SetReadDeadline` and `SetWriteDeadline`.
  unfoldable pub set_read_deadline_request : Value → ℕ → HdpEvent
  unfolding send_event sync
  set_read_deadline_request t ch =
      (sync ch
        (send_event tpt 0 c (integer state2 12 ∷ data_mark ∷ string deadline_key ∷ t ∷ [])).0).0

  unfoldable pub set_write_deadline_request : Value → ℕ → HdpEvent
  unfolding send_event sync
  set_write_deadline_request t ch =
      (sync ch
        (send_event tpt 1 c (integer state2 22 ∷ data_mark ∷ string deadline_key ∷ t ∷ [])).0).0

-- What Read and Write return of the event they receive, and what the deadlines do.
unfoldable pub count_result : (IntType → Float → ℕ) → HdpEvent → ℕ × Option Error
unfolding retval
count_result out_of_range res = retval out_of_range none res

unfoldable pub error_result : HdpEvent → Option Error
unfolding get_err
error_result res = get_err none res
