-- ===== src/Buffers.antt =====
-- buffer.go and the constructors of base.go: bufEntry, BufferSN and BuffrW here; BufferW in
-- Buffers/Writer, BufferR in Buffers/Reader. A byte slice is the list of its bytes; nil and the
-- empty slice, which the code does not tell apart, are the empty list. The log lines are left out.
pub mod Writer
pub mod Reader
pub mod Pending
mod Tests
use aionet.Common.{
  ℕ, ltb, ◌==◌, ◌&&◌, Bool, if◌then◌else◌, List, [], ◌∷◌, ◌++◌, length, lookup, insert, remove,
  Option, none, some,
}

pub record BufEntry : Type 0 where
  pub frame0 : List ℕ
  pub frame1 : List ℕ
  pub timer_key : ℕ

-- `newBufEntry`; the acknowledgement channel, which nothing uses, is left out.
unfoldable pub new_buf_entry : List ℕ → ℕ → BufEntry
new_buf_entry b key = record { frame0 = b; frame1 = []; timer_key = key }

unfoldable pub new_buf_entry1 : List ℕ → BufEntry
new_buf_entry1 b = record { frame0 = b; frame1 = []; timer_key = 0 }

unfoldable pub get_frame : BufEntry → Bool → List ℕ
get_frame e resend = if resend && ltb 0 (length e.frame1) then e.frame1 else e.frame0

pub record BufferSn : Type 0 where
  pub seq_num : List ℕ

unfoldable pub new_buffer_sn : BufferSn
new_buffer_sn = record { seq_num = [] }

-- A method with a value receiver works on a copy: the caller keeps its own value, and has the
-- result.
abbrev pub by_value : {A B : Type 0} → (A → B × A) → A → B × A
by_value method a = ((method a).0, a)

-- `add`: the body, and the call as its caller sees it.
unfoldable pub add_body : ℕ → BufferSn → Unit {0} × BufferSn
add_body n b = (tt, record b { seq_num = b.seq_num ++ (n ∷ []) })

unfoldable pub add : BufferSn → ℕ → BufferSn
add b n = (by_value (add_body n) b).1

unfoldable pub sn_is_empty : BufferSn → Bool
sn_is_empty b = length b.seq_num == 0

-- `popLeft`, likewise.
unfoldable pub pop_left_body : BufferSn → ℕ × BufferSn
pop_left_body b = elim b.seq_num [ [] ↦ (0, b) | n ∷ ns ↦ (n, record b { seq_num = ns }) ]

unfoldable pub pop_left : BufferSn → ℕ × BufferSn
pop_left b = by_value pop_left_body b

-- BuffrW, the frames that wait for an acknowledgement by their sequence numbers.
pub record BuffrW : Type 0 where
  pub this : List (ℕ × List ℕ)
  pub maxsize : ℕ

-- The least size of the three buffers' constructors.
unfoldable pub at_least_16 : ℕ → ℕ
at_least_16 size = if ltb size 16 then 16 else size

unfoldable pub new_buffr_w : ℕ → BuffrW
new_buffr_w size = record { this = []; maxsize = at_least_16 size }

unfoldable pub is_empty : BuffrW → Bool
is_empty w = length w.this == 0

unfoldable pub is_full : BuffrW → Bool
is_full w = length w.this == w.maxsize

-- `addEntry`, with the length it returns; its error is always nil.
unfoldable pub add_entry : BuffrW → List ℕ → ℕ → ℕ × BuffrW
add_entry w frame seq_num = (length frame, record w { this = insert seq_num frame w.this })

-- `pop`; a missing key gives nil.
unfoldable pub pop : BuffrW → ℕ → List ℕ × BuffrW
pop b seq_num =
    let b' : BuffrW = record b { this = remove seq_num b.this } in
    elim (lookup seq_num b.this) [ none ↦ ([], b') | some frame ↦ (frame, b') ]
