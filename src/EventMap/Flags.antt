-- ===== src/EventMap/Flags.antt =====
-- dtype/dtype.go, With1, With2 and Copy: the state flag of an event with the spare one under
-- "auxFlag".
pub mod Spare
use aionet.Common.{
  ℕ, Bool, true, false, ◌&&◌, ◌||◌, not, List, [], ◌∷◌, Option, none, some, ◌==◌, if◌then◌else◌,
  Error, Text, same_text, set_key, Go, Panic, ret, panics, raised, ◌>>=◌,
}
use aionet.EventMap.{
  Value, nil, bool, integer, float32, float64, string, bytes, time, err, chan, event_ch, ready_ch,
  go_map, go_slice, addr, conn, frame_pointer, other, multi_ch, frame, IntType, int, int8, int16,
  int32, int64, uint, uint8, uint16, uint32, uint64, activity, state1, state2, duration, Float,
  whole, fraction, infinity, nan, HdpEvent, value,
}
use aionet.EventMap.Key
use aionet.EventMap.Build.{with_args}

abbrev pub same_bool : Bool → Bool → Bool
same_bool true b = b
same_bool false b = not b

-- The place of a type in IntType, to tell types apart.
unfoldable pub type_place : IntType → ℕ
type_place int = 0
type_place int8 = 1
type_place int16 = 2
type_place int32 = 3
type_place int64 = 4
type_place uint = 5
type_place uint8 = 6
type_place uint16 = 7
type_place uint32 = 8
type_place uint64 = 9
type_place activity = 10
type_place state1 = 11
type_place state2 = 12
type_place duration = 13

-- `==` on floats: the two zeros are equal, NaN is not equal to itself.
unfoldable pub same_float : Float → Float → Bool
same_float (whole s m) (whole t n) = m == n && (same_bool s t || m == 0)
same_float (fraction s m f) (fraction t n g) = same_bool s t && m == n && f == g
same_float (infinity s) (infinity t) = same_bool s t
same_float x y = false

abbrev pub uncomparable : Panic
uncomparable = raised "runtime error: comparing uncomparable type"

-- The value is nil.
unfoldable pub is_nil : Value → Bool
is_nil nil = true
is_nil v = false

-- Two errors are one pointer, or equal values, which their contents do not say, is the argument
-- same_error.
module _ (same_error : Error → Error → Bool) where
  -- `v == w` on values of any type: false on different types, a panic on maps, slices and frames.
  unfoldable pub same_value : Value → Value → Go Bool
  unfolding type_place same_float
  same_value nil nil = ret true
  same_value (bool b) (bool c) = ret (same_bool b c)
  same_value (integer t n) (integer u m) = ret (type_place t == type_place u && n == m)
  same_value (float32 x) (float32 y) = ret (same_float x y)
  same_value (float64 x) (float64 y) = ret (same_float x y)
  same_value (string s) (string t) = ret (same_text s t)
  same_value (bytes b) (bytes c) = panics uncomparable
  same_value (time n a) (time m b) = ret (n == m && a == b)
  same_value (err e) (err f) = ret (same_error e f)
  same_value (chan c) (chan d) = ret (c == d)
  same_value (event_ch c) (event_ch d) = ret (c == d)
  same_value (ready_ch c) (ready_ch d) = ret (c == d)
  same_value (go_map c) (go_map d) = panics uncomparable
  same_value (go_slice c) (go_slice d) = panics uncomparable
  same_value (addr c) (addr d) = ret (c == d)
  same_value (conn c) (conn d) = ret (c == d)
  same_value (frame_pointer c) (frame_pointer d) = ret (c == d)
  same_value (other c) (other d) = ret (c == d)
  same_value (multi_ch cs) (multi_ch ds) = ret (same_text cs ds)
  same_value (frame b n) (frame c m) = panics uncomparable
  same_value v w = ret false

  -- What With1 and With2 do after With: `flag` is the value under `key` before it.
  unfoldable pub swap_flag : Text → Value → HdpEvent → Go HdpEvent
  unfolding same_value is_nil value
  swap_flag key flag r = same_value flag (value key r) >>= λ same. ret (
      if not same
      then set_key Key.aux_flag flag r
      else if not (is_nil (value Key.aux_flag r))
      then set_key Key.aux_flag nil (set_key key (value Key.aux_flag r) r)
      else r)

  -- With1 and With2 by their key. On a nil event With fills a map of its own, which is dropped, and
  -- both flags read nil, as the spare one does.
  unfoldable pub with_flag : Text → List Value → Option HdpEvent → Go (Option HdpEvent)
  unfolding swap_flag with_args value
  with_flag key args none = ret none
  with_flag key args (some r) =
      swap_flag key (value key r) (with_args args (some r)) >>= λ m. ret (some m)

  -- `With1`.
  unfoldable pub with1 : List Value → Option HdpEvent → Go (Option HdpEvent)
  unfolding with_flag
  with1 args r = with_flag Key.flag1 args r

  -- `With2`.
  unfoldable pub with2 : List Value → Option HdpEvent → Go (Option HdpEvent)
  unfolding with_flag
  with2 args r = with_flag Key.flag2 args r

  -- `for k, v := range r { c[k] = v }`.
  unfoldable pub copy_into : HdpEvent → HdpEvent → HdpEvent
  copy_into c [] = c
  copy_into c ((k, v) ∷ r) = copy_into (set_key k v c) r

  -- `Copy`.
  unfoldable pub copy : List Value → HdpEvent → Go (Option HdpEvent)
  unfolding with1 copy_into
  copy args r = with1 args (some (copy_into [] r))
