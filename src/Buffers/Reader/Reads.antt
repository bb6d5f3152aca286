-- ===== src/Buffers/Reader/Reads.antt =====
-- buffer.go: what BufferR.Read copies and what it leaves, chunk boundaries included.
use aionet.Common.{
  append-nil, ℕ, zero, suc, ◌+◌, ◌-◌, ◌≤◌, ◌<◌, min, ◌≡◌, refl, ap, sym, ◌∙◌, ltb, ◌==◌, true,
  false, if◌then◌else◌, Bool-cases, inl, inr, List, [], ◌∷◌, ◌++◌, length, get_elem?-lt, take, drop,
  length-drop, take-append_le, take-append_ge, drop-append_le, drop-get_elem?, drop_all, none, some,
  ret, panics, index_out_of_range, eof, arith,
}
use aionet.Buffers.Reader.{BufferR, Written, total, copy, write_to, read_loop, read}

-- No chunk is empty.
abbrev pub NonEmpty : List (List ℕ) → Type 0
NonEmpty [] = Unit
NonEmpty (c ∷ cs) = (0 < length c) × NonEmpty cs

-- The chunks that a Read of `n` bytes leaves: a chunk that it copies only in part keeps the last
-- byte copied.
abbrev pub left : ℕ → List (List ℕ) → List (List ℕ)
left n [] = []
left zero (c ∷ cs) = c ∷ cs
left (suc n) (c ∷ cs) =
    let rest = left (suc n - length c) cs in if ltb (suc n) (length c) then drop n c ∷ cs else rest

abbrev pub concat : List (List ℕ) → List ℕ
concat [] = []
concat (c ∷ cs) = c ++ concat cs

copy_part :
    (k i : ℕ) (chunk : List ℕ)
    → i + k < length chunk
    → copy k i chunk ≡ ret (take k (drop i chunk), false)
copy_part zero i chunk h = refl
copy_part (suc k) i chunk h =
    let (x, e) = get_elem?-lt chunk i (omega arith) in
    ground (arith, e, copy_part k (suc i) chunk (omega arith), drop-get_elem? chunk i x e)

copy_all :
    (k i : ℕ) (chunk : List ℕ)
    → i < length chunk
    → length chunk ≤ i + k
    → copy k i chunk ≡ ret (drop i chunk, true)
copy_all zero i chunk l h = absurd (omega arith)
copy_all (suc k) i chunk l h =
    let (x, e) = get_elem?-lt chunk i l in
    elim (Bool-cases (suc i == length chunk)) [
      | inl q ↦ ground (arith, e, drop-get_elem? chunk i x e, drop_all chunk (suc i) (ground arith))
      | inr q ↦ ground (
        arith,
        e,
        drop-get_elem? chunk i x e,
        copy_all k (suc i) chunk (ground arith) (omega arith),
      )
    ]

write_to_none :
    (s0 s1 n : ℕ)
    → write_to (record { this = []; size0 = s0; size1 = s1 }) n
      ≡ ret (record {
        bytes = [];
        count = 0;
        err = some eof;
        buffer = record { this = []; size0 = s0; size1 = s1 };
      })
unfolding write_to
write_to_none s0 s1 n = refl

write_to_part :
    (c : List ℕ) (cs : List (List ℕ)) (s0 s1 n : ℕ)
    → suc n < length c
    → write_to (record { this = c ∷ cs; size0 = s0; size1 = s1 }) (suc n)
      ≡ ret (record {
        bytes = take (suc n) c;
        count = suc n;
        err = none;
        buffer = record { this = drop n c ∷ cs; size0 = s0; size1 = s1 };
      })
unfolding write_to
write_to_part c cs s0 s1 n h = ground (arith, copy_part (suc n) 0 c (omega arith))

write_to_all :
    (c : List ℕ) (cs : List (List ℕ)) (s0 s1 n : ℕ)
    → 0 < length c
    → length c ≤ n
    → write_to (record { this = c ∷ cs; size0 = s0; size1 = s1 }) n
      ≡ ret (record {
        bytes = c;
        count = length c;
        err = none;
        buffer = record { this = cs; size0 = s0; size1 = s1 };
      })
unfolding write_to
write_to_all c cs s0 s1 n l h = ground (arith, copy_all n 0 c l (omega arith))

-- The result that a Read of `n` bytes is to give.
abbrev pub read_result : BufferR → ℕ → Written
read_result b n = record {
  bytes = take n (concat b.this);
  count = min n (total b.this);
  err = if ltb (total b.this) n then some eof else none;
  buffer = record b { this = left n b.this };
}

read_loop_done :
    (fuel n : ℕ) (b : BufferR)
    → n ≡ 0
    → read_loop fuel b n ≡ ret (record { bytes = []; count = 0; err = none; buffer = b })
read_loop_done fuel zero b e = refl
read_loop_done fuel (suc n) b e = absurd (omega arith)

read_loop_step :
    (fuel n : ℕ) (b : BufferR) {w r : Written}
    → write_to b (suc n) ≡ ret w
    → w.err ≡ none
    → read_loop fuel w.buffer (suc n - w.count) ≡ ret r
    → read_loop (suc fuel) b (suc n)
      ≡ ret (record {
        bytes = w.bytes ++ r.bytes;
        count = w.count + r.count;
        err = r.err;
        buffer = r.buffer;
      })
read_loop_step fuel n b e f g = ground (arith, e, f, g)

left_part :
    (m : ℕ) (c : List ℕ) (cs : List (List ℕ))
    → suc m < length c
    → left (suc m) (c ∷ cs) ≡ drop m c ∷ cs
left_part m c cs h = ground arith

left_all :
    (m : ℕ) (c : List ℕ) (cs : List (List ℕ))
    → length c ≤ suc m
    → left (suc m - length c) cs ≡ left (suc m) (c ∷ cs)
left_all m c cs h = ground arith

count_all : (a t n : ℕ) → a ≤ n → a + min (n - a) t ≡ min n (a + t)
count_all a t n h = omega arith

eof_after :
    (a t n : ℕ)
    → a ≤ n
    → (if ltb t (n - a) then some eof else none) ≡ (if ltb (a + t) n then some eof else none)
eof_after a t n h = ground arith

written_path :
    {w w' : Written}
    → w.bytes ≡ w'.bytes
    → w.count ≡ w'.count
    → w.err ≡ w'.err
    → w.buffer ≡ w'.buffer
    → ret w ≡ ret w'
written_path p q r t = λ i. ret (record { bytes = p i; count = q i; err = r i; buffer = t i })

read_loop_lem :
    (fuel n : ℕ) (cs : List (List ℕ)) (s0 s1 : ℕ)
    → n ≤ fuel
    → NonEmpty cs
    → read_loop fuel (record { this = cs; size0 = s0; size1 = s1 }) n
      ≡ ret (read_result (record { this = cs; size0 = s0; size1 = s1 }) n)
read_loop_lem fuel zero [] s0 s1 h v = ground arith
read_loop_lem fuel zero (c ∷ cs) s0 s1 h v = ground arith
read_loop_lem zero (suc n) cs s0 s1 h v = elim h [ ]
read_loop_lem (suc fuel) (suc n) [] s0 s1 h v = ground (arith, write_to_none s0 s1 (suc n))
read_loop_lem (suc fuel) (suc n) (c ∷ cs) s0 s1 h v = elim (Bool-cases (ltb (suc n) (length c))) [
  | inl q ↦
      read_loop_step fuel n (record { this = c ∷ cs; size0 = s0; size1 = s1 })
        (write_to_part c cs s0 s1 n (ground arith)) refl
        (read_loop_done fuel (suc n - suc n)
          (record { this = drop n c ∷ cs; size0 = s0; size1 = s1 }) (omega arith))
      ∙ ground
          (arith, append-nil (take (suc n) c), take-append_le (suc n) c (concat cs) (ground arith))
  | inr q ↦
      read_loop_step fuel n (record { this = c ∷ cs; size0 = s0; size1 = s1 })
        (write_to_all c cs s0 s1 (suc n) (v.0) (ground arith)) refl
        (read_loop_lem fuel (suc n - length c) cs s0 s1 (ground arith) (v.1))
      ∙ written_path (sym (take-append_ge (suc n) c (concat cs) (ground arith)))
          (count_all (length c) (total cs) (suc n) (ground arith))
          (eof_after (length c) (total cs) (suc n) (ground arith))
          (ap (λ x. record { this = x; size0 = s0; size1 = s1 }) (left_all n c cs (ground arith)))
]

-- Read of `n` bytes from chunks none of which is empty ends: it returns the first `n` bytes of the
-- chunks, or all of them with EOF when they hold fewer, and leaves the chunks after those bytes,
-- but for the last byte copied from a chunk that it copies only in part, which stays.
pub read_lem : (b : BufferR) (n : ℕ) → NonEmpty b.this → read b n ≡ ret (read_result b n)
unfolding read
read_lem b n v = read_loop_lem n n b.this b.size0 b.size1 (omega arith) v

drop-NonEmpty :
    (n : ℕ) (c : List ℕ) (cs : List (List ℕ))
    → suc n < length c
    → NonEmpty cs
    → NonEmpty (drop n c ∷ cs)
drop-NonEmpty n c cs h v = (omega (arith, length-drop n c), v)

-- When the first chunk has more than `suc m` bytes, a Read of `suc m` bytes and one of `n` bytes
-- after it return, and the second starts with the byte that the first ended with: it returns the
-- bytes from position `m` on, not those from `suc m`.
pub read_twice :
    (b : BufferR) (c : List ℕ) (cs : List (List ℕ)) (m n : ℕ)
    → suc m < length c
    → NonEmpty cs
    → (w : Written) × (w' : Written) × (read (record b { this = c ∷ cs }) (suc m) ≡ ret w)
      × (read w.buffer n ≡ ret w')
      × (w.bytes ≡ take (suc m) (c ++ concat cs))
      × (w'.bytes ≡ take n (drop m (c ++ concat cs)))
read_twice b c cs m n h v = (
  read_result (record b { this = c ∷ cs }) (suc m),
  read_result (record b { this = drop m c ∷ cs }) n,
  read_lem (record b { this = c ∷ cs }) (suc m) (omega arith, v),
  ap (λ x. read (record b { this = x }) n) (left_part m c cs h)
      ∙ read_lem (record b { this = drop m c ∷ cs }) n (drop-NonEmpty m c cs h v),
  refl,
  ap (take n) (sym (drop-append_le m c (concat cs) (omega arith))),
)

-- With an empty chunk at the front, a Read of at least one byte panics.
pub read_empty_chunk :
    (b : BufferR) (cs : List (List ℕ)) (n : ℕ)
    → read (record b { this = [] ∷ cs }) (suc n) ≡ panics index_out_of_range
unfolding read write_to
read_empty_chunk b cs n = refl
