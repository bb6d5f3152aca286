-- ===== src/EventMap.antt =====
-- dtype/dtype.go, dtype/dtype1.go and dtype/base.go: HdpEvent, a map from strings to values of any
-- type, that the goroutines send each other as requests and results. The children have its
-- operations: Key has the keys that the code names, Build those that fill a map, Numbers the
-- conversions between integers and floats that Reads and Codec use, Reads the typed accessors,
-- Flags the state flags with their spare, Channels the replies, Codec the encoding.
pub mod Key
pub mod Lookups
pub mod Build
pub mod Numbers
pub mod Reads
pub mod Flags
pub mod Channels
pub mod SerialType
pub mod Codec
mod Tests
use aionet.Common.{ℕ, Bool, true, false, List, [], ◌∷◌, Option, none, some, Error, Text, get_key}

-- The integer types that values of events have; each value is its two's complement pattern.
pub data IntType : Type 0 where
  int int8 int16 int32 int64 uint uint8 uint16 uint32 uint64 : IntType
  activity state1 state2 duration : IntType

-- A float64: a whole number by its sign (true for a minus) and magnitude, one with a fraction by
-- the sign, whole part and the bits of the fraction.
pub data Float : Type 0 where
  whole : Bool → ℕ → Float
  fraction : Bool → ℕ → ℕ → Float
  infinity : Bool → Float
  nan : Float

-- An `any`. What is shared by reference stands as its address: channels (0 is the nil channel),
-- maps, slices of any, pointers, and the values behind net.Addr and net.Conn. A time is the pattern
-- of its Unix time in microseconds with the nanoseconds beyond; `other` is a value of any other
-- type.
pub data Value : Type 0 where
  nil : Value
  bool : Bool → Value
  integer : IntType → ℕ → Value
  float32 float64 : Float → Value
  string bytes : Text → Value
  time : ℕ → ℕ → Value
  err : Error → Value
  chan event_ch ready_ch go_map go_slice addr conn frame_pointer other : ℕ → Value
  multi_ch : List ℕ → Value
  frame : Text → ℕ → Value

-- `HdpEvent`.
abbrev pub HdpEvent : Type 0
HdpEvent = List (Text × Value)

abbrev pub or_nil : Option Value → Value
or_nil none = nil
or_nil (some v) = v

-- `r[key]`, also the method `Value`.
unfoldable pub value : Text → HdpEvent → Value
value key r = or_nil (get_key key r)
