-- ===== src/Buffers/Pending.antt =====
-- buffer.go: what becomes of the numbers given to BufferSN, and of the frames given to BuffrW.
use aionet.Common.{
  ℕ, suc, ◌≤◌, ◌≡◌, ◌≢◌, refl, true, if◌then◌else◌, inl, inr, List, [], ◌∷◌, length, lookup, insert,
  remove, lookup-insert_self, lookup-insert_ne, lookup-remove_self, lookup-remove_ne, none, some,
  Option-cases, arith,
}
use aionet.Buffers.{
  BufferSn, new_buffer_sn, add, sn_is_empty, pop_left_body, pop_left, BuffrW, at_least_16,
  new_buffr_w, is_full, add_entry, pop,
}

abbrev pub add_all : BufferSn → List ℕ → BufferSn
add_all b [] = b
add_all b (n ∷ ns) = add_all (add b n) ns

-- Whatever numbers are added to a new BufferSN, it stays empty and popLeft gives 0.
pub sn_never_fills :
    (ns : List ℕ)
    → (sn_is_empty (add_all new_buffer_sn ns) ≡ true)
      × ((pop_left (add_all new_buffer_sn ns)).0 ≡ 0)
unfolding new_buffer_sn add sn_is_empty pop_left pop_left_body
sn_never_fills [] = (refl, refl)
sn_never_fills (n ∷ ns) = sn_never_fills ns

-- pop after addEntry gives the frame back, and frees its number; the frames of the other numbers
-- stand as they were before both.
pub pop-add_entry :
    (w : BuffrW) (frame : List ℕ) (s : ℕ)
    → (let r = pop ((add_entry w frame s).1) s in
        (r.0 ≡ frame)
        × (lookup s (r.1).this ≡ none)
        × ((j : ℕ) → j ≢ s → lookup j (r.1).this ≡ lookup j w.this))
unfolding add_entry pop
pop-add_entry w frame s =
    let hit = lookup-insert_self s frame w.this in
    let gone = lookup-remove_self s (insert s frame w.this) in
    (
      ground (arith, hit),
      ground (arith, hit, gone),
      λ j n. ground (
        arith,
        hit,
        lookup-remove_ne s j (insert s frame w.this) n,
        lookup-insert_ne s j frame w.this n,
      ),
    )

length-insert_le :
    (k : ℕ) (f : List ℕ) (m : List (ℕ × List ℕ)) → length (insert k f m) ≤ suc (length m)
length-insert_le k f [] = omega arith
length-insert_le k f ((j, g) ∷ m) = ground (arith, length-insert_le k f m)

length-insert_present :
    (k : ℕ) (f g : List ℕ) (m : List (ℕ × List ℕ))
    → lookup k m ≡ some g
    → length (insert k f m) ≡ length m
length-insert_present k f g [] h = absurd cc
length-insert_present k f g ((j, h') ∷ m) h = ground (arith, length-insert_present k f g m)

length-remove_le : (k : ℕ) (m : List (ℕ × List ℕ)) → length (remove k m) ≤ length m
length-remove_le k [] = omega arith
length-remove_le k ((j, g) ∷ m) = ground (arith, length-remove_le k m)

-- What putFrame and the acknowledgement of a frame do to the buffer: a frame is added only when
-- isFull says no, and popped at its acknowledgement.
pub data Use : Type 0 where
  put : List ℕ → ℕ → Use
  acked : ℕ → Use

unfoldable pub use_once : BuffrW → Use → BuffrW
use_once w (put frame s) = if is_full w then w else (add_entry w frame s).1
use_once w (acked s) = (pop w s).1

abbrev pub use_all : BuffrW → List Use → BuffrW
use_all w [] = w
use_all w (u ∷ us) = use_all (use_once w u) us

pub record Bounded (w : BuffrW) (size : ℕ) : Type 0 where
  pub at_most : length w.this ≤ w.maxsize
  pub fixed : w.maxsize ≡ at_least_16 size

use_once-Bounded : (w : BuffrW) (size : ℕ) (u : Use) → Bounded w size → Bounded (use_once w u) size
unfolding use_once is_full add_entry pop
use_once-Bounded w size (put frame s) v = ground (arith, length-insert_le s frame w.this)
use_once-Bounded w size (acked s) v = elim (Option-cases (lookup s w.this)) [
  | inl e ↦ ground (arith, e, length-remove_le s w.this)
  | inr (f, e) ↦ ground (arith, e, length-remove_le s w.this)
]

use_all-Bounded :
    (w : BuffrW) (size : ℕ) (us : List Use) → Bounded w size → Bounded (use_all w us) size
use_all-Bounded w size [] v = v
use_all-Bounded w size (u ∷ us) v =
    use_all-Bounded (use_once w u) size us (use_once-Bounded w size u v)

-- Through any sequence of guarded additions and acknowledgements, a new BuffrW holds at most as
-- many frames as its size, and 16 if the size asked for is less.
pub frames-Bounded : (size : ℕ) (us : List Use) → Bounded (use_all (new_buffr_w size) us) size
unfolding new_buffr_w
frames-Bounded size us =
    use_all-Bounded (new_buffr_w size) size us (record { at_most = ground arith; fixed = refl })
