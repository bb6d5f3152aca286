-- ===== src/Dtype/Names.antt =====
-- dtype/const.go: the String methods against the const blocks, whose names stand here in their
-- order.
use aionet.Common.{
  ℕ, zero, suc, ◌≡◌, ◌≢◌, refl, ap, sym, ◌∙◌, List, [], ◌∷◌, true, not, Bool, ◌&&◌, ◌||◌, ◌==◌,
  ==_iff, Bool-cases, if◌then◌else◌, inl, inr, ◌↔◌, arith,
}
use Prim.Native.String.{String}
use text.Mathlib.Text.{◌==◌ as eq_text}
use text.Mathlib.TextPositions.{eq_refl}
use aionet.Dtype.{
  state1_cases, state2_cases, switch, activity_string, io_mode_string, serial_type_string,
  state1_string, state2_string, req_connect, acknow_connect, acknow_accept, acknow_open,
  ack_peer_closing, peer_closing, closed,
}

-- The name at place `n` of a const block; a switch's default beyond its end.
abbrev pub name_or : String → List String → ℕ → String
name_or d [] n = d
name_or d (x ∷ xs) zero = x
name_or d (x ∷ xs) (suc n) = name_or d xs n

abbrev pub activities : List String
activities =
    "Inactivity" ∷ "Aborted" ∷ "Cancelled" ∷ "Closed" ∷ "Complete" ∷ "Connected" ∷ "Continue"
    ∷ "Disconnected" ∷ "Init" ∷ "Ready" ∷ "Resolved" ∷ "Restarting" ∷ "Running" ∷ "Sigterm"
    ∷ "Started" ∷ "Starting" ∷ "Stopped" ∷ "Stopping" ∷ "Suspended" ∷ "Unresolved" ∷ "Waiting" ∷ []

abbrev pub io_modes : List String
io_modes = "EV_NULL" ∷ "EV_ERROR" ∷ "EV_READ" ∷ "EV_READY" ∷ "EV_RESET" ∷ "EV_WRITE" ∷ []

abbrev pub serial_types : List String
serial_types =
    "t_nil" ∷ "t_bool" ∷ "t_byteslice" ∷ "t_float32" ∷ "t_float64" ∷ "t_int" ∷ "t_int8" ∷ "t_int16"
    ∷ "t_int32" ∷ "t_int64" ∷ "t_list" ∷ "t_map" ∷ "t_string" ∷ "t_time" ∷ "t_uint" ∷ "t_uint8"
    ∷ "t_uint16" ∷ "t_uint32" ∷ "t_uint64" ∷ "t_flag1" ∷ "t_flag2" ∷ []

abbrev pub states1 : List String
states1 =
    "HDP_UNDEFINED1" ∷ "HDP_ACCEPT" ∷ "HDP_ACCEPT_ACK" ∷ "HDP_ACCEPTED" ∷ "HDP_CLOSED1"
    ∷ "HDP_CONNECT" ∷ "HDP_CONNECT_ACK" ∷ "HDP_CONNECTED" ∷ "HDP_DATAGRAM1" ∷ "HDP_DIAL"
    ∷ "HDP_ERROR1" ∷ "HDP_INIT1" ∷ "HDP_OPEN1" ∷ "HDP_RESET1" ∷ "HDP_STARTING" ∷ "HDP_STARTED"
    ∷ "HDP_QUERY" ∷ []

abbrev pub states2 : List String
states2 =
    "HDP_UNDEFINED" ∷ "HDP_CLOSE_ACK" ∷ "HDP_CLOSED" ∷ "HDP_CLOSING" ∷ "HDP_DATA_ACK"
    ∷ "HDP_DATAGRAM" ∷ "HDP_ERROR" ∷ "HDP_INIT" ∷ "HDP_INPUT" ∷ "HDP_NOACTION" ∷ "HDP_OPEN"
    ∷ "HDP_PULSE" ∷ "HDP_READ1" ∷ "HDP_READ2" ∷ "HDP_READY" ∷ "HDP_REPEAT" ∷ "HDP_RESET"
    ∷ "HDP_RMT_CLOSING" ∷ "HDP_STOPPED" ∷ "HDP_STOPPING" ∷ "HDP_TESTING" ∷ "HDP_UNRESOLVED"
    ∷ "HDP_WRITE1" ∷ "HDP_WRITE2" ∷ "HDP_QUERY2" ∷ []

-- Each String method gives, for every integer, the name at that place of its const block and the
-- default beyond the block's end; that of HDP_STATE2 does so at every place but 10 and 11, where it
-- gives the two names HDP_OPEN and HDP_PULSE the other way round.
pub string_names :
    (n : ℕ)
    → (activity_string n ≡ name_or "Inactivity" activities n)
      × (io_mode_string n ≡ name_or "INVALID_MODE" io_modes n)
      × (serial_type_string n ≡ name_or "t_invalid" serial_types n)
      × (state1_string n ≡ name_or "error : invalid state" states1 n)
      × (n ≢ 10 → n ≢ 11 → state2_string n ≡ name_or "error : invalid state" states2 n)
      × (state2_string 10 ≡ name_or "error : invalid state" states2 11)
      × (state2_string 11 ≡ name_or "error : invalid state" states2 10)
unfolding activity_string io_mode_string serial_type_string state1_string state2_string
string_names n =
    (ground arith, ground arith, ground arith, ground arith, λ a b. ground arith, refl, refl)

-- Row `n` alone of a switch returns `s`.
abbrev only_at : ℕ → String → List (ℕ × String) → String → Bool
only_at n s [] d = not (eq_text d s)
only_at n s ((k, t) ∷ cs) d = (k == n || not (eq_text t s)) && only_at n s cs d

only_at-switch :
    (n : ℕ) (s : String) (cs : List (ℕ × String)) (d : String) (m : ℕ)
    → only_at n s cs d ≡ true
    → switch cs d m ≡ s
    → m ≡ n
only_at-switch n s [] d m h e = ground (arith, eq_refl s, ap (λ t. eq_text t s) e)
only_at-switch n s ((k, t) ∷ cs) d m h e = elim (Bool-cases (m == k)) [
  | inl q ↦ ground (
    arith,
    eq_refl s,
    q,
    ap (λ t. eq_text t s) (sym (ap (λ b. if b then t else switch cs d m) q) ∙ e),
  )
  | inr q ↦
      only_at-switch n s cs d m (ground arith)
        (sym (ap (λ b. if b then t else switch cs d m) q) ∙ e)
]

only_at_lem :
    (n : ℕ) (s : String) (cs : List (ℕ × String)) (d : String) (m : ℕ)
    → switch cs d n ≡ s
    → only_at n s cs d ≡ true
    → ((m == n) ≡ true) ↔ (switch cs d m ≡ s)
only_at_lem n s cs d m e h = (
  λ q. ap (switch cs d) ((==_iff m n).0 q) ∙ e,
  λ q. (==_iff m n).1 (only_at-switch n s cs d m h q),
)

-- Each predicate on states holds of exactly the integers that String gives the name of the constant
-- it tests for.
pub predicate_names :
    (s : ℕ)
    → ((req_connect s ≡ true) ↔ (state1_string s ≡ "HDP_CONNECT"))
      × ((acknow_connect s ≡ true) ↔ (state1_string s ≡ "HDP_CONNECT_ACK"))
      × ((acknow_accept s ≡ true) ↔ (state1_string s ≡ "HDP_ACCEPT_ACK"))
      × ((acknow_open s ≡ true) ↔ (state1_string s ≡ "HDP_CONNECTED"))
      × ((ack_peer_closing s ≡ true) ↔ (state2_string s ≡ "HDP_CLOSE_ACK"))
      × ((peer_closing s ≡ true) ↔ (state2_string s ≡ "HDP_CLOSING"))
      × ((closed s ≡ true) ↔ (state2_string s ≡ "HDP_CLOSED"))
unfolding state1_string state2_string req_connect acknow_connect acknow_accept acknow_open
    ack_peer_closing peer_closing closed
predicate_names s = (
  only_at_lem 5 "HDP_CONNECT" state1_cases "error : invalid state" s refl refl,
  only_at_lem 6 "HDP_CONNECT_ACK" state1_cases "error : invalid state" s refl refl,
  only_at_lem 2 "HDP_ACCEPT_ACK" state1_cases "error : invalid state" s refl refl,
  only_at_lem 7 "HDP_CONNECTED" state1_cases "error : invalid state" s refl refl,
  only_at_lem 1 "HDP_CLOSE_ACK" state2_cases "error : invalid state" s refl refl,
  only_at_lem 3 "HDP_CLOSING" state2_cases "error : invalid state" s refl refl,
  only_at_lem 2 "HDP_CLOSED" state2_cases "error : invalid state" s refl refl,
)
