-- ===== src/Buffers/Writer/Counts.antt =====
-- buffer.go: BufferW's count of the bytes queued, against the frames themselves.
use aionet.Common.{
  ℕ, ◌+◌, ◌-◌, ◌≤◌, ◌<◌, min, ◌≡◌, ◌≢◌, refl, ap, sym, ltb, Bool-cases, inl, inr, List, [], ◌∷◌,
  ◌++◌, length, take, drop, length-take, length-drop, lookup, insert, lookup-insert_self,
  lookup-insert_ne, Option, none, some, ret, arith,
}
use aionet.Buffers.{BufEntry, new_buf_entry}
use aionet.Buffers.Writer.{BufferW, add_entry, next_entry, on_frame_write}

abbrev pub frame_size : Option BufEntry → ℕ
frame_size none = 0
frame_size (some e) = length e.frame0

-- The bytes of the frames queued under these numbers.
abbrev pub queued : List (ℕ × BufEntry) → List ℕ → ℕ
queued m [] = 0
queued m (s ∷ ss) = frame_size (lookup s m) + queued m ss

abbrev pub Absent : ℕ → List ℕ → Type 0
Absent k [] = Unit
Absent k (s ∷ ss) = (s ≢ k) × Absent k ss

abbrev pub Distinct : List ℕ → Type 0
Distinct [] = Unit
Distinct (s ∷ ss) = Absent s ss × Distinct ss

-- The numbers queued are different, `size[0]` counts the bytes of their frames, and does not exceed
-- `size[1]`.
pub record Counted (w : BufferW) : Type 0 where
  pub distinct : Distinct w.seq_num
  pub counts : w.added ≡ w.written + queued w.this w.seq_num
  pub bounded : w.added ≤ w.capacity + w.written

queued-insert-Absent :
    (k : ℕ) (e : BufEntry) (m : List (ℕ × BufEntry)) (ss : List ℕ)
    → Absent k ss
    → queued (insert k e m) ss ≡ queued m ss
queued-insert-Absent k e m [] a = refl
queued-insert-Absent k e m (s ∷ ss) (n, a) =
    ground (arith, lookup-insert_ne k s e m n, queued-insert-Absent k e m ss a)

queued-append :
    (m : List (ℕ × BufEntry)) (ss : List ℕ) (k : ℕ)
    → queued m (ss ++ (k ∷ [])) ≡ queued m ss + frame_size (lookup k m)
queued-append m [] k = omega arith
queued-append m (s ∷ ss) k = omega (arith, queued-append m ss k)

Absent-append : (j k : ℕ) (ss : List ℕ) → Absent j ss → j ≢ k → Absent j (ss ++ (k ∷ []))
Absent-append j k [] a n = (λ e. n (sym e), tt)
Absent-append j k (s ∷ ss) (h, a) n = (h, Absent-append j k ss a n)

Distinct-append : (k : ℕ) (ss : List ℕ) → Distinct ss → Absent k ss → Distinct (ss ++ (k ∷ []))
Distinct-append k [] d a = (tt, tt)
Distinct-append k (s ∷ ss) (h, d) (n, a) = (Absent-append s k ss h n, Distinct-append k ss d a)

-- addEntry of a number that is not queued keeps the count and the bound of a buffer that has them:
-- it does not panic, and it buffers and returns as many bytes of the frame as there is space for.
pub add_entry-Counted :
    (w : BufferW) (frame : List ℕ) (s key : ℕ)
    → Counted w
    → Absent s w.seq_num
    → (w' : BufferW) × (add_entry w frame s key
        ≡ ret (min (length frame) (w.capacity + w.written - w.added), w'))
      × (w'.seq_num ≡ w.seq_num ++ (s ∷ []))
      × (lookup s w'.this
          ≡ some (
              new_buf_entry
                (take (min (length frame) (w.capacity + w.written - w.added)) frame)
                key))
      × Counted w'
unfolding add_entry
add_entry-Counted w frame s key v a =
    let n = min (length frame) (w.capacity + w.written - w.added) in
    let e : BufEntry = new_buf_entry (take n frame) key in
    let w' : BufferW = record w {
      seq_num = w.seq_num ++ (s ∷ []);
      this = insert s e w.this;
      added = w.added + n;
    } in
    (
      w',
      ground (arith, v.bounded),
      refl,
      lookup-insert_self s e w.this,
      record {
        distinct = Distinct-append s w.seq_num v.distinct a;
        counts = omega (
          arith,
          v.counts,
          queued-append (insert s e w.this) w.seq_num s,
          queued-insert-Absent s e w.this w.seq_num a,
          ap frame_size (lookup-insert_self s e w.this),
          length-take n frame,
        );
        bounded = omega (arith, v.bounded);
      },
    )

abbrev pub with_queue : BufferW → List ℕ → BufferW
with_queue w ss = record w { seq_num = ss }

-- After a write of at most the bytes of the head frame, onFrameWrite keeps the count and the bound
-- of a buffer that has them: it takes the frame off the queue if all of it was written, and else
-- cuts the written bytes off its front.
pub on_frame_write-Counted :
    (w : BufferW) (s : ℕ) (ss : List ℕ) (e : BufEntry) (wn : ℕ)
    → Counted (with_queue w (s ∷ ss))
    → lookup s w.this ≡ some e
    → wn ≤ length e.frame0
    → (w' : BufferW) × (on_frame_write (with_queue w (s ∷ ss)) wn ≡ (none, w'))
      × (queued w'.this w'.seq_num + wn ≡ queued w.this (s ∷ ss))
      × ((wn ≡ length e.frame0) → (w'.seq_num ≡ ss))
      × (wn < length e.frame0
          → (w'.seq_num ≡ s ∷ ss)
            × (lookup s w'.this ≡ some (record e { frame0 = drop wn e.frame0 })))
      × Counted w'
unfolding on_frame_write next_entry
on_frame_write-Counted w s ss e wn v f h = elim (Bool-cases (ltb wn (length e.frame0))) [
  | inl q ↦
      (let e' : BufEntry = record e { frame0 = drop wn e.frame0 } in
        let m = insert s e' w.this in
        let sum : (queued m (s ∷ ss) + wn ≡ queued w.this (s ∷ ss)) = omega (
          arith,
          ap frame_size f,
          ap frame_size (lookup-insert_self s e' w.this),
          length-drop wn e.frame0,
          queued-insert-Absent s e' w.this ss (v.distinct.0),
        ) in
        (
          record w { seq_num = s ∷ ss; this = m; written = w.written + wn },
          ground (arith, f, q),
          sum,
          λ z. ground arith,
          λ z. (refl, lookup-insert_self s e' w.this),
          record {
            distinct = v.distinct;
            counts = omega (arith, v.counts, sum);
            bounded = omega (arith, v.bounded);
          },
        ))
  | inr q ↦
      (let full : (wn ≡ length e.frame0) = ground arith in
        let sum : (queued w.this ss + wn ≡ queued w.this (s ∷ ss)) =
          omega (arith, ap frame_size f, full) in
        (
          record w { seq_num = ss; written = w.written + wn },
          ground (arith, f, q),
          sum,
          λ z. refl,
          λ z. absurd (omega arith),
          record {
            distinct = v.distinct.1;
            counts = omega (arith, v.counts, sum);
            bounded = omega (arith, v.bounded);
          },
        ))
]
