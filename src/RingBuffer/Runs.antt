-- ===== src/RingBuffer/Runs.antt =====
-- ringbuffer.go over time: any sequence of the calls that hdpWrite2 (transport1.go) makes, and what
-- becomes of the window once every frame has been acknowledged.
use mathlib.Core.Path.{subst}
use aionet.Common.{
  ℕ, ◌≡◌, ◌≢◌, inl, inr, true, Option, some, List, [], ◌∷◌, arith, length, get_elem?, ret, sym, ◌∙◌,
  Error, ret-injective, get_elem?-set_ne, get_elem?-append,
}
use aionet.RingBuffer.{
  RingItem, GyroNumber, RingBuffer, reset, new_ring_item, adopt, update_ack_seq_num,
  ack_num_is_oldest, next_seq_num, set_next_item,
}
use aionet.RingBuffer.{new_ring_buffer}
use aionet.Common.{◌≤◌, ◌<◌}
use aionet.RingBuffer.Valid.{
  new_ring_buffer-IsValid, IsValid, IsSeqNum, succ_seq_num, next_seq_num_cases, IsValid-seq_num,
}
use aionet.RingBuffer.Send.{with_item, set_next_item_lem, set_next_item-IsValid}
use aionet.RingBuffer.Ack.{Outstanding}
use aionet.RingBuffer.Acknowledge.{
  AckOutcome, unsent, repeated, mismatched, matched, Acknowledged, kept, drained, moved,
  ack_num_is_oldest_lem, ack_outcome, update_ack_seq_num-IsValid,
}

-- One call: nextSeqNum, setNextItem with a sequence number, or updateAckSeqNum with one.
pub data Step (b b' : RingBuffer) : Type 0 where
  numbered : (n : ℕ) (err : Option Error) → next_seq_num b ≡ ret (b', n, err) → Step b b'
  stored : (n : ℕ) → IsSeqNum n → set_next_item b n ≡ ret b' → Step b b'
  acked :
      (n : ℕ) (err : Option Error) → IsSeqNum n → update_ack_seq_num b n ≡ ret (b', err) → Step b b'

pub data Reach (b : RingBuffer) : RingBuffer → Type 0 where
  here : Reach b b
  more : {c d : RingBuffer} → Reach b c → Step c d → Reach b d

succ_range : (n : ℕ) → IsSeqNum n → IsSeqNum (succ_seq_num n)
succ_range n r = ground arith

next_seq_num-IsValid :
    {b b' : RingBuffer} (n : ℕ) (err : Option Error)
    → IsValid b
    → next_seq_num b ≡ ret (b', n, err)
    → IsValid b'
next_seq_num-IsValid {b} n err v e = elim (next_seq_num_cases v) [
  | inl (_, f) ↦ subst (λ t. IsValid t.0) (ret-injective (sym f ∙ e)) v
  | inr (_, f) ↦
      subst (λ t. IsValid t.0) (ret-injective (sym f ∙ e))
        (IsValid-seq_num _ v (succ_range b.gyro.seq_num (v.seq_low, v.seq_high)))
]

Step-IsValid : {b b' : RingBuffer} → IsValid b → Step b b' → IsValid b'
Step-IsValid v (numbered n err e) = next_seq_num-IsValid n err v e
Step-IsValid v (stored n r e) =
    let (c, f, v') = set_next_item-IsValid n v r in subst IsValid (ret-injective (sym f ∙ e)) v'
Step-IsValid v (acked n err r e) = update_ack_seq_num-IsValid n v r e

-- Every state that any calls lead to satisfies the invariant.
pub Reach-IsValid : {b b' : RingBuffer} → IsValid b → Reach b b' → IsValid b'
Reach-IsValid v here = v
Reach-IsValid v (more r s) = Step-IsValid (Reach-IsValid v r) s

-- `oldestUnack` points to an item that was acknowledged and reset.
pub record Stale (b : RingBuffer) (p : ℕ) : Type 0 where
  pub oldest : b.gyro.oldest_unack ≡ some p
  pub was_reset :
      (item : RingItem) × (get_elem? b.heap p ≡ some item)
      × (item.acknowledged ≡ true)
      × (item.seq_num ≡ 0)

numbered-Stale :
    {b b' : RingBuffer} (p n : ℕ) (err : Option Error)
    → IsValid b
    → Stale b p
    → next_seq_num b ≡ ret (b', n, err)
    → Stale b' p
numbered-Stale {b} p n err v s e = elim (next_seq_num_cases v) [
  | inl (_, f) ↦ subst (λ t. Stale t.0 p) (ret-injective (sym f ∙ e)) s
  | inr (_, f) ↦
      subst (λ t. Stale t.0 p) (ret-injective (sym f ∙ e))
        (record { oldest = s.oldest; was_reset = s.was_reset })
]

adopt-some :
    (g : GyroNumber) (p q : ℕ) → g.oldest_unack ≡ some p → (adopt g q).oldest_unack ≡ some p
unfolding adopt
adopt-some g p q e = ground arith

with_item-Stale : {b : RingBuffer} (p n : ℕ) → IsValid b → Stale b p → Stale (with_item b n) p
with_item-Stale {b} p n v s =
    let (item, f, a, z) = s.was_reset in
    record {
      oldest = adopt-some b.gyro p (length b.heap) s.oldest;
      was_reset = (
        item,
        get_elem?-append b.heap (new_ring_item n ∷ []) p (v.oldest_alloc p s.oldest) ∙ f,
        a,
        z,
      );
    }

oldest_is :
    (g : GyroNumber) (p q : ℕ) → g.oldest_unack ≡ some p → ack_num_is_oldest g q ≡ true → p ≡ q
unfolding ack_num_is_oldest
oldest_is g p q e h = ground arith

pub same_item :
    (heap : List RingItem) (p : ℕ) (item it : RingItem)
    → get_elem? heap p ≡ some item
    → get_elem? heap p ≡ some it
    → item.acknowledged ≡ it.acknowledged
same_item heap p item it e f = ground arith

-- An outstanding item is not the stale one.
Stale-ne-Outstanding : {b : RingBuffer} (p k q : ℕ) → Stale b p → Outstanding b k q → q ≢ p
Stale-ne-Outstanding {b} p k q s (it, l, f, a) e =
    let (item, f', a', z) = s.was_reset in cc (same_item b.heap p item it f' (rw e at f))

Acknowledged-Stale :
    {b b' : RingBuffer} (p j q : ℕ) (item : RingItem)
    → Stale b p
    → q ≢ p
    → Acknowledged b j q item b'
    → Stale b' p
Acknowledged-Stale {b} p j q item s ne (kept _ _ _ e) =
    let (it, f, a, z) = s.was_reset in
    rw e (record {
      oldest = s.oldest;
      was_reset = (it, get_elem?-set_ne b.heap q p (reset item) ne ∙ f, a, z);
    })
Acknowledged-Stale {b} p j q item s ne (drained o _ e) =
    absurd (ne (sym (oldest_is b.gyro p q s.oldest (ack_num_is_oldest_lem b q o))))
Acknowledged-Stale {b} p j q item s ne (moved _ o _ e) =
    absurd (ne (sym (oldest_is b.gyro p q s.oldest (ack_num_is_oldest_lem b q o))))

AckOutcome-Stale :
    {b b' : RingBuffer} {err : Option Error} (p n : ℕ)
    → Stale b p
    → AckOutcome b n b' err
    → Stale b' p
AckOutcome-Stale p n s (unsent _ e _) = rw e s
AckOutcome-Stale p n s (repeated _ _ _ _ _ e _) = rw e s
AckOutcome-Stale p n s (mismatched _ _ _ _ _ e _) = rw e s
AckOutcome-Stale {b} p n s (matched q item o _ _ done _) =
    Acknowledged-Stale p _ q item s (Stale-ne-Outstanding p _ q s o) done

Step-Stale : {b b' : RingBuffer} (p : ℕ) → IsValid b → Stale b p → Step b b' → Stale b' p
Step-Stale p v s (numbered n err e) = numbered-Stale p n err v s e
Step-Stale p v s (stored n r e) =
    subst (λ t. Stale t p) (ret-injective (sym (set_next_item_lem n v r) ∙ e))
      (with_item-Stale p n v s)
Step-Stale p v s (acked n err r e) = AckOutcome-Stale p n s (ack_outcome n v r e)

-- Once the oldest pointer of a valid buffer is left on an item that was reset, it stays on that
-- item, and the item reset, whatever calls follow.
pub Reach-Stale : {b b' : RingBuffer} (p : ℕ) → IsValid b → Stale b p → Reach b b' → Stale b' p
Reach-Stale p v s here = s
Reach-Stale p v s (more r st) = Step-Stale p (Reach-IsValid v r) (Reach-Stale p v s r) st

-- Whatever calls of nextSeqNum, and of setNextItem and updateAckSeqNum with sequence numbers, are
-- made on a new buffer of 1 to 65535 slots, the buffer is valid after them.
pub run-IsValid :
    {b : RingBuffer} (w : ℕ) → 0 < w → w ≤ 65535 → Reach (new_ring_buffer w) b → IsValid b
run-IsValid w lo hi r = Reach-IsValid (new_ring_buffer-IsValid w lo hi) r
