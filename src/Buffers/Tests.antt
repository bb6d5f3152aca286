-- ===== src/Buffers/Tests.antt =====
-- buffer.go: the theorems at small concrete buffers.
use aionet.Common.{◌≡◌, refl, [], ◌∷◌, arith, ret}
use aionet.Buffers.{BufEntry}
use aionet.Buffers.Writer.{BufferW}
use aionet.Buffers.Writer.Counts.{Counted}
use aionet.Buffers.Reader.{BufferR, read}
use aionet.Buffers.Reader.Reads.{read_result, read_lem}

-- A queue of one frame of three bytes, with room for 16.
abbrev three_bytes : BufEntry
three_bytes = record { frame0 = 65 ∷ 66 ∷ 67 ∷ []; frame1 = []; timer_key = 0 }

abbrev queue : BufferW
queue = record {
  this = (1, three_bytes) ∷ [];
  resend = [];
  seq_num = 1 ∷ [];
  added = 3;
  written = 0;
  capacity = 16;
}

queue-Counted : Counted queue
queue-Counted = record { distinct = (tt, tt); counts = refl; bounded = omega arith }

abbrev chunks : BufferR
chunks = record { this = (65 ∷ 66 ∷ 67 ∷ []) ∷ (68 ∷ []) ∷ []; size0 = 4; size1 = 16 }

read_lem_example : read chunks 2 ≡ ret (read_result chunks 2)
read_lem_example = read_lem chunks 2 (omega arith, (omega arith, tt))
