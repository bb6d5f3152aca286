-- ===== src/Buffers/Reader.antt =====
-- buffer.go: BufferR, the bytes that a datagram holds beyond the frame of the reader. `size[0]` and
-- `size[1]` are `size0` and `size1`.

pub mod Reads
use aionet.Common.{
  ℕ, zero, suc, ◌+◌, ◌-◌, ltb, leb, ◌==◌, Bool, true, false, if◌then◌else◌, List, [], ◌∷◌, ◌++◌,
  length, drop, Option, none, some, Go, ret, panics, ◌>>=◌, index, Error, eof,
}
use aionet.Buffers.{at_least_16}

pub record BufferR : Type 0 where
  pub this : List (List ℕ)
  pub size0 : ℕ
  pub size1 : ℕ

unfoldable pub new_buffer_r : ℕ → BufferR
unfolding at_least_16
new_buffer_r size = record { this = []; size0 = 0; size1 = at_least_16 size }

unfoldable pub add : BufferR → List ℕ → BufferR
add b f = record b { this = b.this ++ (f ∷ []); size0 = b.size0 + length f }

-- `bytes.Join`.
abbrev pub join : List ℕ → List (List ℕ) → List ℕ
join del [] = []
join del (f ∷ []) = f
join del (f ∷ (g ∷ fs)) = f ++ (del ++ join del (g ∷ fs))

-- `Bytes` with its optional delimiter.
unfoldable pub to_bytes : BufferR → Option (List ℕ) → List ℕ
to_bytes b none = join [] b.this
to_bytes b (some del) = join del b.this

abbrev pub total : List (List ℕ) → ℕ
total [] = 0
total (f ∷ fs) = length f + total fs

-- `Len`, which stores its result in `size[1]`.
unfoldable pub len : BufferR → ℕ × BufferR
len b = (total b.this, record b { size1 = total b.this })

unfoldable pub is_empty : BufferR → Bool × BufferR
unfolding len
is_empty b = let r = len b in (r.0 == 0, r.1)

unfoldable pub is_full : BufferR → Bool × BufferR
unfolding len
is_full b = let b' = (len b).1 in (leb b'.size0 b'.size1, b')

-- The loop of writeTo over the indices of a frame, of which `k` are left, the next being `i`: the
-- bytes written, and whether the loop returned at the chunk's last byte.
abbrev pub copy : ℕ → ℕ → List ℕ → Go (List ℕ × Bool)
copy zero i chunk = ret ([], false)
copy (suc k) i chunk = index chunk i >>= λ x.
    let rest = copy k (suc i) chunk in
    if suc i == length chunk then ret (x ∷ [], true) else rest >>= λ r. ret (x ∷ r.0, r.1)

-- What a call of writeTo leaves: the bytes at the start of the frame, its results, and the buffer.
pub record Written : Type 0 where
  pub bytes : List ℕ
  pub count : ℕ
  pub err : Option Error
  pub buffer : BufferR

-- `writeTo` into a frame of `n` bytes. After a loop that did not return, `i` is the last index, or
-- 0 for an empty frame: `n - 1` both times, and what is left starts at that index.
unfoldable pub write_to : BufferR → ℕ → Go Written
write_to b n = elim b.this [
  | [] ↦ ret (record { bytes = []; count = 0; err = some eof; buffer = b })
  | chunk ∷ chunks ↦
      (copy n 0 chunk >>= λ r.
      if r.1
      then ret (record {
        bytes = r.0;
        count = length r.0;
        err = none;
        buffer = record b { this = chunks };
      })
      else ret (record {
        bytes = r.0;
        count = suc (n - 1);
        err = none;
        buffer = record b { this = drop (n - 1) chunk ∷ chunks };
      }))
]

-- The loop of Read while `n` bytes of the frame are left. `fuel` bounds the calls: each call that
-- does not end the loop writes at least one byte.
abbrev pub read_loop : ℕ → BufferR → ℕ → Go Written
read_loop fuel b zero = ret (record { bytes = []; count = 0; err = none; buffer = b })
read_loop zero b (suc n) = ret (record { bytes = []; count = 0; err = none; buffer = b })
read_loop (suc fuel) b (suc n) = write_to b (suc n) >>= λ w.
    let rest = read_loop fuel w.buffer (suc n - w.count) in
    elim w.err [
      | some e ↦ ret w
      | none ↦
          (rest >>= λ r. ret (record {
            bytes = w.bytes ++ r.bytes;
            count = w.count + r.count;
            err = r.err;
            buffer = r.buffer;
          }))
    ]

-- `Read` into a frame of `n` bytes.
unfoldable pub read : BufferR → ℕ → Go Written
read b n = read_loop n b n
