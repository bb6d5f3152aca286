-- ===== src/Buffers/Writer.antt =====
-- buffer.go: BufferW, the queue of frames to write and to resend. `size[0]`, an int that may go
-- below 0, is the difference `added - written`, and `size[1]` is `capacity`. An entry is reached
-- through the map alone, so that a change through the pointer is an insert.

pub mod Counts
use aionet.Common.{
  ℕ, ◌+◌, ◌-◌, min, ltb, leb, ◌==◌, not, Bool, true, false, if◌then◌else◌, List, [], ◌∷◌, ◌++◌,
  length, take, drop, lookup, insert, remove, Option, none, some, Go, ret, panics, Panic,
  slice_out_of_range, raised, Error, errorf,
}
use aionet.Buffers.{BufEntry, new_buf_entry, new_buf_entry1, at_least_16}

pub record BufferW : Type 0 where
  pub this : List (ℕ × BufEntry)
  pub resend : List ℕ
  pub seq_num : List ℕ
  pub added : ℕ
  pub written : ℕ
  pub capacity : ℕ

unfoldable pub new_buffer_w : ℕ → BufferW
unfolding at_least_16
new_buffer_w size = record {
  this = [];
  resend = [];
  seq_num = [];
  added = 0;
  written = 0;
  capacity = at_least_16 size;
}

-- `addEntry`: the frame is cut to the space left, and a negative space makes `frame[:n]` panic.
unfoldable pub add_entry : BufferW → List ℕ → ℕ → ℕ → Go (ℕ × BufferW)
unfolding new_buf_entry
add_entry w frame seq_num timer_key =
    if ltb (w.capacity + w.written) w.added
    then panics slice_out_of_range
    else (let n = min (length frame) (w.capacity + w.written - w.added) in
        ret (
          n,
          record w {
            seq_num = w.seq_num ++ (seq_num ∷ []);
            this = insert seq_num (new_buf_entry (take n frame) timer_key) w.this;
            added = w.added + n;
          },
        ))

-- `addEntry1`, which does not look at the space.
unfoldable pub add_entry1 : BufferW → List ℕ → ℕ → ℕ × BufferW
unfolding new_buf_entry1
add_entry1 w frame seq_num = (
  length frame,
  record w {
    seq_num = w.seq_num ++ (seq_num ∷ []);
    this = insert seq_num (new_buf_entry1 frame) w.this;
    added = w.added + length frame;
  },
)

unfoldable pub add_resend : BufferW → ℕ → BufferW
add_resend w seq_num = record w { resend = w.resend ++ (seq_num ∷ []) }

unfoldable pub get_entry : BufferW → ℕ → Option BufEntry
get_entry b seq_num = lookup seq_num b.this

unfoldable pub is_empty : BufferW → Bool
is_empty w = length w.seq_num == 0

unfoldable pub resend_is_empty : BufferW → Bool
resend_is_empty w = length w.resend == 0

unfoldable pub is_full : BufferW → Bool
is_full w = leb (w.capacity + w.written) w.added

-- The head of the chosen list with its entry; 0 and nil from an empty list.
abbrev pub head_entry : BufferW → List ℕ → ℕ × Option BufEntry
head_entry b [] = (0, none)
head_entry b (s ∷ ss) = (s, lookup s b.this)

unfoldable pub next_entry : BufferW → Bool → ℕ × Option BufEntry
next_entry b resend = head_entry b (if resend then b.resend else b.seq_num)

unfoldable pub pop : BufferW → ℕ → Option BufEntry × BufferW
pop b seq_num = (lookup seq_num b.this, record b { this = remove seq_num b.this })

-- `xs[1:]` of a list that is not empty.
abbrev pub tail : List ℕ → List ℕ
tail [] = []
tail (x ∷ xs) = xs

unfoldable pub shift_left : BufferW → ℕ → Bool → Go BufferW
shift_left b seq_num resend =
    if resend then ret (record b { resend = tail b.resend }) else elim b.seq_num [
      | [] ↦ panics (raised "BufferW ordered seqNum list[0] should not be empty")
      | s ∷ ss ↦
          if s == seq_num
          then ret (record b { seq_num = ss })
          else panics (raised "BufferW ordered seqNum list[0] != seqNum")
    ]

abbrev pub err_list_empty : Error
err_list_empty =
    errorf "BufferW system error : ordered seqNum list is empty which is not expected" []

-- `onFrameWrite`, where `wn` is the number of bytes that a write sent.
unfoldable pub on_frame_write : BufferW → ℕ → Option Error × BufferW
unfolding next_entry
on_frame_write b wn =
    let next = next_entry b false in
    elim (next.1) [
      | none ↦ (some err_list_empty, b)
      | some e ↦
          (let b' : BufferW = record b { written = b.written + wn } in
            if ltb wn (length e.frame0)
            then (
              none,
              record b' { this = insert (next.0) (record e { frame0 = drop wn e.frame0 }) b.this },
            )
            else (none, record b' { seq_num = tail b.seq_num }))
    ]

-- `onFrameRewrite`, the same for a resent frame; it leaves the size alone.
unfoldable pub on_frame_rewrite : BufferW → ℕ → Option Error × BufferW
unfolding next_entry
on_frame_rewrite b wn =
    let next = next_entry b true in
    elim (next.1) [
      | none ↦ (some err_list_empty, b)
      | some e ↦
          if ltb 0 (length e.frame1)
          then (if ltb wn (length e.frame1)
              then (
                none,
                record b { this = insert (next.0) (record e { frame1 = drop wn e.frame1 }) b.this },
              )
              else (none, b))
          else if ltb wn (length e.frame0)
          then (
            none,
            record b { this = insert (next.0) (record e { frame1 = drop wn e.frame0 }) b.this },
          )
          else (none, record b { resend = tail b.resend })
    ]
