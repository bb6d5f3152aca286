-- ===== src/Epoller/Submit.antt =====
-- epoller/base.go, SubmitIoReq, which reads a request to the poller out of an event, and the
-- functions that make such events: waitIoReady (base.go), submitReq, init, close and setDeadline
-- (sock1.go), and setDeadline of the transport (transport1.go).
pub mod Reads
pub mod Waits
pub mod Woken
mod Tests
use Prim.Native.Nat.{bit_or}
use Prim.Native.String.{String}
use aionet.Common.{
  ℕ, Bool, true, false, ◌&&◌, ◌≡◌, ◌==◌, if◌then◌else◌, List, [], ◌∷◌, Option, none, some, Error,
  hdp, Text, ascii, same_text, get_key,
}
use aionet.EventMap.{HdpEvent, Value, IntType, Float, integer, int, string, time, value}
use aionet.EventMap.Key
use aionet.EventMap.Build.{new_event}
use aionet.EventMap.Reads.{get_int}
use aionet.Epoller.{ReqRef, IoReq, IoEvent, Unix, ev_null, ev_read, ev_write, zero_time}

unfoldable pub op_key : Text
op_key = ascii "ioReq/op"

unfoldable pub cid_key : Text
cid_key = ascii "reqRef/cid"

unfoldable pub fd_key : Text
fd_key = ascii "reqRef/fd"

unfoldable pub flags_key : Text
flags_key = ascii "reqRef/flags"

unfoldable pub mode_key : Text
mode_key = ascii "reqRef/mode"

unfoldable pub deadline_key : Text
deadline_key = ascii "reqRef/deadline"

-- How strings and times of events stand in the poller's requests, and the conversions that Go
-- leaves to the implementation.
pub record Views : Type 0 where
  pub text : Text → String
  pub instant : ℕ → ℕ → ℕ
  pub out_of_range : IntType → Float → ℕ

-- `x, _ := ival.(int)`, and so for a string and a time.
abbrev pub int_or_zero : Value → ℕ
int_or_zero (integer int n) = n
int_or_zero v = 0

abbrev pub string_or_empty : Views → Value → String
string_or_empty views (string s) = views.text s
string_or_empty views v = ""

abbrev pub time_or_zero : Views → Value → ℕ
time_or_zero views (time n a) = views.instant n a
time_or_zero views v = zero_time

-- One round of the loop over the event; the value of "ioReq/aux" is never read.
unfoldable pub read_key : Views → Text → Value → ReqRef → ReqRef
unfolding cid_key fd_key flags_key mode_key deadline_key
read_key views k v ref =
    if same_text k cid_key
    then record ref { cid = string_or_empty views v }
    else if same_text k fd_key
    then record ref { fd = int_or_zero v }
    else if same_text k flags_key
    then record ref { flags = int_or_zero v }
    else if same_text k mode_key
    then record ref { mode = int_or_zero v }
    else if same_text k deadline_key
    then record ref { deadline = time_or_zero views v }
    else ref

unfoldable pub read_keys : Views → HdpEvent → ReqRef → ReqRef
unfolding read_key
read_keys views [] ref = ref
read_keys views ((k, v) ∷ ev) ref = read_keys views ev (read_key views k v ref)

abbrev pub no_ref : ReqRef
no_ref = record { cid = ""; fd = 0; flags = 0; mode = 0; deadline = zero_time }

-- `SubmitIoReq`: the event that it sends the poller; ch is the channel that it makes and returns.
unfoldable pub submit_io_req : Views → ℕ → HdpEvent → IoEvent
unfolding op_key get_int read_keys
submit_io_req views ch ev = record {
  dl_ref = 0;
  pev = [];
  err = none;
  req = record {
    ch = some ch;
    op = get_int views.out_of_range op_key ev;
    ref = read_keys views ev no_ref;
  };
  timed_at = zero_time;
}

abbrev pub data_mark : Value
data_mark = string Key.data_mark

-- `submitReq` of a socket, up to its call of SubmitIoReq.
unfoldable pub submit_req : Text → ℕ → ℕ → ℕ → ℕ → HdpEvent
unfolding new_event op_key cid_key fd_key flags_key mode_key
submit_req cid fd op flags mode = new_event (
    data_mark
    ∷ string op_key
    ∷ integer int op
    ∷ string cid_key
    ∷ string cid
    ∷ string fd_key
    ∷ integer int fd
    ∷ string flags_key
    ∷ integer int flags
    ∷ string mode_key
    ∷ integer int mode
    ∷ [])

-- The flags that waitIoReady asks for.
abbrev pub flags_for : Unix → ℕ → ℕ
flags_for u mode = if mode == ev_read then u.epollin else if mode == ev_write then u.epollout else 0

-- `waitIoReady`.
unfoldable pub wait_io_ready : Unix → Text → ℕ → ℕ → HdpEvent
unfolding submit_req
wait_io_ready u cid fd mode = submit_req cid fd u.ctl_mod (flags_for u mode) mode

-- `init` of a socket.
unfoldable pub init : Unix → Text → ℕ → HdpEvent
unfolding submit_req
init u cid fd =
    submit_req cid fd u.ctl_add
      (bit_or (bit_or (bit_or u.epolloneshot u.epollin) u.epollout) u.epollet) ev_null

-- `close` of a socket: the request, and what it makes of the answer, none after two seconds.
unfoldable pub close : Unix → Text → ℕ → HdpEvent
unfolding submit_req
close u cid fd = submit_req cid fd u.ctl_del 0 ev_null

unfoldable pub close_result : Option (Option Error) → Option Error
close_result none = some (hdp 14)
close_result (some none) = none
close_result (some (some e)) = some (hdp 20)

-- `setDeadline` of hdpRead2 and hdpWrite2, with the flags and the mode of the side.
unfoldable pub set_deadline : Text → ℕ → ℕ → ℕ → Value → HdpEvent
unfolding new_event cid_key fd_key flags_key mode_key deadline_key
set_deadline cid fd flags mode deadline = new_event (
    data_mark
    ∷ string cid_key
    ∷ string cid
    ∷ string fd_key
    ∷ integer int fd
    ∷ string flags_key
    ∷ integer int flags
    ∷ string mode_key
    ∷ integer int mode
    ∷ string deadline_key
    ∷ deadline
    ∷ [])

-- `setDeadline` of socket1, which sends no mode.
unfoldable pub set_socket_deadline : Text → ℕ → ℕ → ℕ → ℕ → HdpEvent
unfolding new_event cid_key fd_key flags_key deadline_key
set_socket_deadline cid fd flags n a = new_event (
    data_mark
    ∷ string cid_key
    ∷ string cid
    ∷ string fd_key
    ∷ integer int fd
    ∷ string flags_key
    ∷ integer int flags
    ∷ string deadline_key
    ∷ time n a
    ∷ [])
