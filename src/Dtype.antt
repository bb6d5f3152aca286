-- ===== src/Dtype.antt =====
-- dtype/const.go: the integer enumerations, their String methods and the predicates on states. A
-- value is its integer, because the code also makes values by converting a byte of a message
-- (`HDP_STATE2(hdr[10])`), so that any integer may occur. The ioMode of const.go and of
-- epoller/const.go is the same text.
pub mod Names
pub mod Errors
mod Tests
use aionet.Common.{ℕ, Bool, ◌==◌, if◌then◌else◌, List, [], ◌∷◌}
use Prim.Native.String.{String}

-- A `switch n` of cases that return a string, with its default.
abbrev pub switch : List (ℕ × String) → String → ℕ → String
switch [] d n = d
switch ((k, s) ∷ cs) d n = if n == k then s else switch cs d n

-- `Activity.String`.
unfoldable pub activity_string : ℕ → String
activity_string n =
    switch
      ((1, "Aborted")
        ∷ (2, "Cancelled")
        ∷ (3, "Closed")
        ∷ (4, "Complete")
        ∷ (5, "Connected")
        ∷ (6, "Continue")
        ∷ (7, "Disconnected")
        ∷ (8, "Init")
        ∷ (9, "Ready")
        ∷ (10, "Resolved")
        ∷ (11, "Restarting")
        ∷ (12, "Running")
        ∷ (13, "Sigterm")
        ∷ (14, "Started")
        ∷ (15, "Starting")
        ∷ (16, "Stopped")
        ∷ (17, "Stopping")
        ∷ (18, "Suspended")
        ∷ (19, "Unresolved")
        ∷ (20, "Waiting")
        ∷ [])
      "Inactivity" n

-- `ioMode.String`.
unfoldable pub io_mode_string : ℕ → String
io_mode_string n =
    switch
      ((0, "EV_NULL")
        ∷ (1, "EV_ERROR")
        ∷ (2, "EV_READ")
        ∷ (3, "EV_READY")
        ∷ (4, "EV_RESET")
        ∷ (5, "EV_WRITE")
        ∷ [])
      "INVALID_MODE" n

-- `SerialType.String`.
unfoldable pub serial_type_string : ℕ → String
serial_type_string n =
    switch
      ((0, "t_nil")
        ∷ (1, "t_bool")
        ∷ (2, "t_byteslice")
        ∷ (3, "t_float32")
        ∷ (4, "t_float64")
        ∷ (5, "t_int")
        ∷ (6, "t_int8")
        ∷ (7, "t_int16")
        ∷ (8, "t_int32")
        ∷ (9, "t_int64")
        ∷ (10, "t_list")
        ∷ (11, "t_map")
        ∷ (12, "t_string")
        ∷ (13, "t_time")
        ∷ (14, "t_uint")
        ∷ (15, "t_uint8")
        ∷ (16, "t_uint16")
        ∷ (17, "t_uint32")
        ∷ (18, "t_uint64")
        ∷ (19, "t_flag1")
        ∷ (20, "t_flag2")
        ∷ [])
      "t_invalid" n

-- The cases of `HDP_STATE1.String`.
abbrev pub state1_cases : List (ℕ × String)
state1_cases =
    (0, "HDP_UNDEFINED1")
    ∷ (1, "HDP_ACCEPT")
    ∷ (2, "HDP_ACCEPT_ACK")
    ∷ (3, "HDP_ACCEPTED")
    ∷ (4, "HDP_CLOSED1")
    ∷ (5, "HDP_CONNECT")
    ∷ (6, "HDP_CONNECT_ACK")
    ∷ (7, "HDP_CONNECTED")
    ∷ (8, "HDP_DATAGRAM1")
    ∷ (9, "HDP_DIAL")
    ∷ (10, "HDP_ERROR1")
    ∷ (11, "HDP_INIT1")
    ∷ (12, "HDP_OPEN1")
    ∷ (13, "HDP_RESET1")
    ∷ (14, "HDP_STARTING")
    ∷ (15, "HDP_STARTED")
    ∷ (16, "HDP_QUERY")
    ∷ []

-- `HDP_STATE1.String`.
unfoldable pub state1_string : ℕ → String
state1_string n = switch state1_cases "error : invalid state" n

-- The cases of `HDP_STATE2.String`.
abbrev pub state2_cases : List (ℕ × String)
state2_cases =
    (0, "HDP_UNDEFINED")
    ∷ (1, "HDP_CLOSE_ACK")
    ∷ (2, "HDP_CLOSED")
    ∷ (3, "HDP_CLOSING")
    ∷ (4, "HDP_DATA_ACK")
    ∷ (5, "HDP_DATAGRAM")
    ∷ (6, "HDP_ERROR")
    ∷ (7, "HDP_INIT")
    ∷ (8, "HDP_INPUT")
    ∷ (9, "HDP_NOACTION")
    ∷ (10, "HDP_PULSE")
    ∷ (11, "HDP_OPEN")
    ∷ (12, "HDP_READ1")
    ∷ (13, "HDP_READ2")
    ∷ (14, "HDP_READY")
    ∷ (15, "HDP_REPEAT")
    ∷ (16, "HDP_RESET")
    ∷ (17, "HDP_RMT_CLOSING")
    ∷ (18, "HDP_STOPPED")
    ∷ (19, "HDP_STOPPING")
    ∷ (20, "HDP_TESTING")
    ∷ (21, "HDP_UNRESOLVED")
    ∷ (22, "HDP_WRITE1")
    ∷ (23, "HDP_WRITE2")
    ∷ (24, "HDP_QUERY2")
    ∷ []

-- `HDP_STATE2.String`.
unfoldable pub state2_string : ℕ → String
state2_string n = switch state2_cases "error : invalid state" n

-- The constants that the predicates use, by their places in the const blocks.
abbrev pub hdp_accept : ℕ
hdp_accept = 1

abbrev pub hdp_open1 : ℕ
hdp_open1 = 12

abbrev pub hdp_accept_ack : ℕ
hdp_accept_ack = 2

abbrev pub hdp_connect : ℕ
hdp_connect = 5

abbrev pub hdp_connect_ack : ℕ
hdp_connect_ack = 6

abbrev pub hdp_connected : ℕ
hdp_connected = 7

abbrev pub hdp_close_ack : ℕ
hdp_close_ack = 1

abbrev pub hdp_closed : ℕ
hdp_closed = 2

abbrev pub hdp_closing : ℕ
hdp_closing = 3

unfoldable pub req_connect : ℕ → Bool
req_connect s = s == hdp_connect

unfoldable pub acknow_connect : ℕ → Bool
acknow_connect s = s == hdp_connect_ack

unfoldable pub acknow_accept : ℕ → Bool
acknow_accept s = s == hdp_accept_ack

unfoldable pub acknow_open : ℕ → Bool
acknow_open s = s == hdp_connected

unfoldable pub ack_peer_closing : ℕ → Bool
ack_peer_closing s = s == hdp_close_ack

unfoldable pub peer_closing : ℕ → Bool
peer_closing s = s == hdp_closing

unfoldable pub closed : ℕ → Bool
closed s = s == hdp_closed
