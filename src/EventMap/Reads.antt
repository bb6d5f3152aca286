-- ===== src/EventMap/Reads.antt =====
-- dtype/dtype1.go, the typed accessors of an event, and Conn, Retval and Args of dtype/dtype.go. An
-- accessor with an optional key has it as an Option; its default comes first.
use aionet.Common.{ℕ, Bool, false, List, [], ◌∷◌, Option, none, some, Error, Text}
use aionet.EventMap.{
  Value, bool, integer, float32, float64, string, bytes, err, chan, event_ch, addr, conn,
  frame_pointer, multi_ch, frame, IntType, int, uint16, uint32, activity, state1, state2, duration,
  Float, HdpEvent, value,
}
use aionet.EventMap.Key
use aionet.EventMap.Numbers.{truncate, from_float}

abbrev pub key_or : Text → Option Text → Text
key_or d none = d
key_or d (some k) = k

-- The cases of the type switches.
unfoldable pub activity_of : Value → ℕ
activity_of (integer int n) = n
activity_of (integer activity n) = n
activity_of v = 0

unfoldable pub addr_of : Value → Option ℕ
addr_of (addr a) = some a
addr_of v = none

unfoldable pub conn_of : Value → Option ℕ
conn_of (conn c) = some c
conn_of v = none

unfoldable pub bool_of : Value → Bool
bool_of (bool b) = b
bool_of v = false

unfoldable pub bytes_of : Value → List ℕ
bytes_of (bytes b) = b
bytes_of v = []

unfoldable pub duration_of : Value → ℕ
duration_of (integer duration n) = n
duration_of v = 0

unfoldable pub channel_of : Value → ℕ
channel_of (chan c) = c
channel_of (event_ch c) = c
channel_of v = 0

unfoldable pub error_of : Value → Option Error
error_of (err e) = some e
error_of v = none

unfoldable pub flag1_of : Value → ℕ
flag1_of (integer state1 n) = n
flag1_of (integer int n) = n
flag1_of v = 0

unfoldable pub flag2_of : Value → ℕ
flag2_of (integer state2 n) = n
flag2_of (integer int n) = n
flag2_of v = 0

-- A pointer to a frame: one in the event, or that of a copy of the frame in it.
pub data FramePointer : Type 0 where
  stored : ℕ → FramePointer
  copied : Text → ℕ → FramePointer

unfoldable pub frame_of : Value → Option FramePointer
frame_of (frame b n) = some (copied b n)
frame_of (frame_pointer p) = some (stored p)
frame_of v = none

unfoldable pub string_of : Value → Text
string_of (bytes b) = b
string_of (string s) = s
string_of v = []

unfoldable pub multi_ch_of : Value → List ℕ
multi_ch_of (multi_ch cs) = cs
multi_ch_of v = 0 ∷ 0 ∷ 0 ∷ 0 ∷ []

unfoldable pub uint16_of : Value → ℕ
unfolding truncate
uint16_of (integer int n) = truncate uint16 n
uint16_of (integer uint16 n) = n
uint16_of v = 0

unfoldable pub uint32_of : Value → ℕ
unfolding truncate
uint32_of (integer int n) = truncate uint32 n
uint32_of (integer uint16 n) = n
uint32_of (integer uint32 n) = n
uint32_of v = 0

unfoldable pub int_of : (IntType → Float → ℕ) → Value → ℕ
unfolding from_float
int_of out_of_range (integer int n) = n
int_of out_of_range (integer uint16 n) = n
int_of out_of_range (integer uint32 n) = n
int_of out_of_range (float32 x) = from_float out_of_range int x
int_of out_of_range (float64 x) = from_float out_of_range int x
int_of out_of_range v = 0

-- `Actvity`.
unfoldable pub get_activity : Option Text → HdpEvent → ℕ
unfolding activity_of
get_activity key r = activity_of (value (key_or Key.activity key) r)

-- `Addr`.
unfoldable pub get_addr : Text → HdpEvent → Option ℕ
unfolding addr_of
get_addr key r = addr_of (value key r)

-- `Conn`.
unfoldable pub get_conn : Option Text → HdpEvent → Option ℕ
unfolding conn_of
get_conn key r = conn_of (value (key_or Key.conn key) r)

-- `Bool`.
unfoldable pub get_bool : Text → HdpEvent → Bool
unfolding bool_of
get_bool key r = bool_of (value key r)

-- `Bytes`.
unfoldable pub get_bytes : Option Text → HdpEvent → List ℕ
unfolding bytes_of
get_bytes key r = bytes_of (value (key_or Key.bytes key) r)

-- `Deadline`.
unfoldable pub get_deadline : Option Text → HdpEvent → ℕ
unfolding duration_of
get_deadline key r = duration_of (value (key_or Key.set_deadline key) r)

-- `Ch`.
unfoldable pub get_ch : Option Text → HdpEvent → ℕ
unfolding channel_of
get_ch key r = channel_of (value (key_or Key.result_ch key) r)

-- `Err`.
unfoldable pub get_err : Option Text → HdpEvent → Option Error
unfolding error_of
get_err key r = error_of (value (key_or Key.error key) r)

-- `Flag1`.
unfoldable pub get_flag1 : Option Text → HdpEvent → ℕ
unfolding flag1_of
get_flag1 key r = flag1_of (value (key_or Key.flag1 key) r)

-- `Flag2`.
unfoldable pub get_flag2 : Option Text → HdpEvent → ℕ
unfolding flag2_of
get_flag2 key r = flag2_of (value (key_or Key.flag2 key) r)

-- `Frame`.
unfoldable pub get_frame : Option Text → HdpEvent → Option FramePointer
unfolding frame_of
get_frame key r = frame_of (value (key_or Key.frame key) r)

-- `String`.
unfoldable pub get_string : Text → HdpEvent → Text
unfolding string_of
get_string key r = string_of (value key r)

-- `MultiCh`.
unfoldable pub get_multi_ch : Option Text → HdpEvent → List ℕ
unfolding multi_ch_of
get_multi_ch key r = multi_ch_of (value (key_or Key.multi_ch key) r)

-- `UInt16`.
unfoldable pub get_uint16 : Text → HdpEvent → ℕ
unfolding uint16_of
get_uint16 key r = uint16_of (value key r)

-- `UInt32`.
unfoldable pub get_uint32 : Text → HdpEvent → ℕ
unfolding uint32_of
get_uint32 key r = uint32_of (value key r)

-- `Int`, and `Retval`, its result with the event's error.
module _ (out_of_range : IntType → Float → ℕ) where
  unfoldable pub get_int : Text → HdpEvent → ℕ
  unfolding int_of
  get_int key r = int_of out_of_range (value key r)

  unfoldable pub retval : Option Text → HdpEvent → ℕ × Option Error
  unfolding get_int get_err
  retval key r = (get_int (key_or Key.byte_num key) r, get_err none r)

-- `Args`.
unfoldable pub args_of : HdpEvent → List Value
args_of [] = []
args_of ((k, v) ∷ r) = string k ∷ v ∷ args_of r
