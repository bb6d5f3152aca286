-- ===== src/RingBuffer/Drained.antt =====
-- ringbuffer.go: the window once every frame has been acknowledged.
use mathlib.Core.Path.{subst}
use native.Mathlib.Nat.{mod-eq-sub-mod, mod-eq_of_lt}
use native.Mathlib.Decide.{ℕ_discrete}
use aionet.Common.{
  ℕ, ◌+◌, ◌-◌, ◌%◌, ◌<◌, ◌≡◌, refl, inl, inr, true, false, Option, none, some, arith, ◌==◌, length,
  get_elem?, ==_iff, ret, sub32, get_elem?-set_self, sym, ap, ◌∙◌, Error, ret-injective,
  get_elem?-set_ne,
}
use aionet.RingBuffer.{
  RingItem, RingBuffer, reset, update_ack_seq_num, window_full, next_seq_num, err_ring_buffer_full,
  update_un_ack,
}
use aionet.RingBuffer.Valid.{IsValid, IsSeqNum, next_seq_num_cases, window_full-some}
use aionet.RingBuffer.Send.{set_next_item_lem, adopt_window, adopt_seq_num}
use aionet.RingBuffer.Ack.{Settled, SettledFrom, Outstanding}
use aionet.RingBuffer.Reset.{with_reset, with_reset-IsValid}
use aionet.RingBuffer.Acknowledge.{
  AckOutcome, unsent, repeated, mismatched, matched, Acknowledged, kept, drained, moved,
  ack_outcome, on_match,
}
use aionet.RingBuffer.Runs.{
  Step, numbered, stored, acked, Reach, here, more, Stale, same_item, Reach-Stale, Reach-IsValid,
}

Stale-full :
    (b : RingBuffer) (p : ℕ)
    → IsValid b
    → Stale b p
    → window_full b ≡ ret (b.gyro.seq_num % b.gyro.window == 0)
Stale-full b p v s =
    let (item, f, a, z) = s.was_reset in
    let e : sub32 b.gyro.seq_num item.seq_num ≡ b.gyro.seq_num = omega (arith, v.seq_high) in
    window_full-some b p item v.window_pos s.oldest f ∙ rw e

was_reset : (item : RingItem) → (reset item).acknowledged ≡ true
unfolding reset
was_reset item = refl

-- Resetting an item leaves settled what was settled.
with_reset-Settled :
    (b : RingBuffer) (k p : ℕ) (item : RingItem)
    → p < length b.heap
    → Settled b k
    → Settled (with_reset b p item) k
with_reset-Settled b k p item h (inl e) = inl e
with_reset-Settled b k p item h (inr (q, it, l, f, a)) = elim (ℕ_discrete p q) [
  | yes same ↦
      inr
        (q, reset item, l, rw (← same) (get_elem?-set_self b.heap p (reset item) h), was_reset item)
  | no ne ↦ inr (q, it, l, get_elem?-set_ne b.heap p q (reset item) ne ∙ f, a)
]

not-Settled-Outstanding : (b : RingBuffer) (k p : ℕ) → Settled b k → ¬ Outstanding b k p
not-Settled-Outstanding b k p (inl e) (it, l, f, a) = cc
not-Settled-Outstanding b k p (inr (q, it, l, f, a)) (it', l', f', a') =
    let same : q ≡ p = ground arith in cc (same_item b.heap p it it' (rw same at f) f')

-- All the slots that the search passes are settled after the reset.
all_settled :
    {b : RingBuffer} (j p : ℕ) (item : RingItem)
    → IsValid b
    → get_elem? b.this j ≡ some (some p)
    → j < b.gyro.window
    → SettledFrom b j 1 b.gyro.window
    → SettledFrom (with_reset b p item) j 1 (1 + b.gyro.window)
all_settled {b} j p item v l h s t a c = elim (ℕ_discrete t b.gyro.window) [
  | no ne ↦ with_reset-Settled b _ p item (v.slot_alloc j p l) (s t a (omega arith))
  | yes e ↦
      let round : (j + t) % b.gyro.window ≡ j = omega (
        arith,
        e,
        mod-eq-sub-mod {n = j + t} {m = b.gyro.window} (omega arith),
        mod-eq_of_lt {n = j + t - b.gyro.window} {m = b.gyro.window} (omega arith),
      ) in
      rw round (
        inr (
          p,
          reset item,
          l,
          get_elem?-set_self b.heap p (reset item) (v.slot_alloc j p l),
          was_reset item,
        ))
]

only_reset :
    {b b' : RingBuffer} (j p : ℕ) (item : RingItem)
    → IsValid b
    → b.gyro.oldest_unack ≡ some p
    → get_elem? b.this j ≡ some (some p)
    → j < b.gyro.window
    → SettledFrom b j 1 b.gyro.window
    → Acknowledged b j p item b'
    → b' ≡ with_reset b p item
only_reset {b} j p item v o l h s (kept _ _ _ e) = e
only_reset j p item v o l h s (drained _ _ e) = e
only_reset {b} j p item v o l h s (moved q _ (t, a, c, _, out) e) =
    absurd
      (not-Settled-Outstanding (with_reset b p item) _ q (all_settled j p item v l h s t a c) out)

with_reset-Stale :
    (b : RingBuffer) (p : ℕ) (item : RingItem)
    → p < length b.heap
    → b.gyro.oldest_unack ≡ some p
    → Stale (with_reset b p item) p
unfolding reset
with_reset-Stale b p item h o = record {
  oldest = o;
  was_reset = (reset item, get_elem?-set_self b.heap p (reset item) h, refl, refl);
}

-- When all slots of a valid buffer but that of the oldest item are settled and this last item is
-- acknowledged, then no error is returned, the oldest pointer is left on the item just reset, and
-- the window, which is empty, is reported full exactly when the next number is a multiple of the
-- window.
pub ack_last :
    {b : RingBuffer} (p n : ℕ) (item : RingItem)
    → IsValid b
    → IsSeqNum n
    → b.gyro.oldest_unack ≡ some p
    → get_elem? b.this ((n - 1) % b.gyro.window) ≡ some (some p)
    → get_elem? b.heap p ≡ some item
    → item.seq_num ≡ n
    → SettledFrom b ((n - 1) % b.gyro.window) 1 b.gyro.window
    → (b' : RingBuffer) × (update_ack_seq_num b n ≡ ret (b', none))
      × Stale b' p
      × (window_full b' ≡ ret (b.gyro.seq_num % b.gyro.window == 0))
ack_last {b} p n item v r o l f e s =
    let (b', run, done) = on_match n p item v r l f e in
    let same =
      only_reset ((n - 1) % b.gyro.window) p item v o l (omega (arith, v.window_pos)) s done in
    let stale = with_reset-Stale b p item (v.oldest_alloc p o) o in
    (
      b',
      run,
      rw same stale,
      rw same (Stale-full (with_reset b p item) p (with_reset-IsValid p item v) stale),
    )

AckOutcome-gyro :
    {b b' : RingBuffer} {err : Option Error} (n : ℕ)
    → AckOutcome b n b' err
    → (b'.gyro.seq_num ≡ b.gyro.seq_num) × (b'.gyro.window ≡ b.gyro.window)
unfolding update_un_ack
AckOutcome-gyro n (unsent _ e _) = rw e (refl, refl)
AckOutcome-gyro n (repeated _ _ _ _ _ e _) = rw e (refl, refl)
AckOutcome-gyro n (mismatched _ _ _ _ _ e _) = rw e (refl, refl)
AckOutcome-gyro n (matched _ _ _ _ _ (kept _ _ _ e) _) = rw e (refl, refl)
AckOutcome-gyro n (matched _ _ _ _ _ (drained _ _ e) _) = rw e (refl, refl)
AckOutcome-gyro n (matched _ _ _ _ _ (moved _ _ _ e) _) = rw e (refl, refl)

abbrev Reached : RingBuffer → Type 0
Reached b = b.gyro.seq_num % b.gyro.window ≡ 0

true-ne-false : ¬ (ret true ≡ ret false)
true-ne-false e = cc (ret-injective e)

refuses :
    {b : RingBuffer} (p : ℕ)
    → IsValid b
    → Stale b p
    → Reached b
    → next_seq_num b ≡ ret (b, 0, some err_ring_buffer_full)
refuses {b} p v s e = elim (next_seq_num_cases v) [
  | inl (_, f) ↦ f
  | inr (open_window, _) ↦ absurd (
      true-ne-false (
        ap ret (sym ((==_iff (b.gyro.seq_num % b.gyro.window) 0).1 e))
        ∙ sym (Stale-full b p v s)
        ∙ open_window))
]

-- A stale buffer at a multiple of the window stays there.
Step-Reached :
    {b b' : RingBuffer} (p : ℕ) → IsValid b → Stale b p → Reached b → Step b b' → Reached b'
Step-Reached p v s e (numbered n err f) =
    subst (λ t. Reached t.0) (ret-injective (sym (refuses p v s e) ∙ f)) e
Step-Reached {b} p v s e (stored n r f) =
    subst Reached (ret-injective (sym (set_next_item_lem n v r) ∙ f))
      (rw (adopt_seq_num b.gyro (length b.heap), adopt_window b.gyro (length b.heap)) e)
Step-Reached p v s e (acked n err r f) =
    let (num, win) = AckOutcome-gyro n (ack_outcome n v r f) in rw (num, win) e

Reach-Reached :
    {b b' : RingBuffer} (p : ℕ) → IsValid b → Stale b p → Reached b → Reach b b' → Reached b'
Reach-Reached p v s e here = e
Reach-Reached p v s e (more r st) =
    Step-Reached p (Reach-IsValid v r) (Reach-Stale p v s r) (Reach-Reached p v s e r) st

-- When the oldest pointer of a valid buffer is left on an item that was reset and the next number
-- is a multiple of the window, nextSeqNum refuses for good: it does so in every state that any
-- later calls lead to.
pub refuses_for_good :
    {b b' : RingBuffer} (p : ℕ)
    → IsValid b
    → Stale b p
    → b.gyro.seq_num % b.gyro.window ≡ 0
    → Reach b b'
    → next_seq_num b' ≡ ret (b', 0, some err_ring_buffer_full)
refuses_for_good p v s e r =
    refuses p (Reach-IsValid v r) (Reach-Stale p v s r) (Reach-Reached p v s e r)
