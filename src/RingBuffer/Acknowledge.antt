-- ===== src/RingBuffer/Acknowledge.antt =====
-- ringbuffer.go: every branch of updateAckSeqNum, and the invariant after it.
use mathlib.Core.Path.{subst}
use native.Mathlib.Decide.{ℕ_discrete}
use aionet.Common.{
  ℕ, ◌+◌, ◌-◌, ◌%◌, ◌≤◌, ◌<◌, ◌≡◌, refl, ◌≢◌, inl, inr, true, false, Option, none, some, [], ◌∷◌,
  arith, get_elem?, ==_ne, ==_refl, ==_iff, ◌⊎◌, ret, sym, ap, ◌∙◌, Error, errorf, get_elem?-lt,
  ret-injective, Option-cases,
}
use aionet.RingBuffer.{
  RingItem, RingBuffer, acknowledge, update_ack_seq_num, ack_num_is_oldest, load,
}
use aionet.RingBuffer.Valid.{IsValid, IsSeqNum, Fits, modulus_of_pos}
use aionet.RingBuffer.Send.{slot_in_range}
use aionet.RingBuffer.Ack.{SettledFrom, Outstanding, FirstOutstanding, find_unack_cases}
use aionet.RingBuffer.Reset.{with_reset, with_oldest, with_reset-IsValid, with_oldest-IsValid}

-- The oldest pointer is nil or `p`.
abbrev pub IsOldest : RingBuffer → ℕ → Type 0
IsOldest b p = (b.gyro.oldest_unack ≡ none) ⊎ (b.gyro.oldest_unack ≡ some p)

pub ack_num_is_oldest_lem :
    (b : RingBuffer) (p : ℕ) → IsOldest b p → ack_num_is_oldest b.gyro p ≡ true
unfolding ack_num_is_oldest
ack_num_is_oldest_lem b p (inl e) = rw e refl
ack_num_is_oldest_lem b p (inr e) = rw e (==_refl p)

IsOldest-cases :
    (b : RingBuffer) (p : ℕ)
    → (IsOldest b p × (ack_num_is_oldest b.gyro p ≡ true))
      ⊎ ((q : ℕ) × (b.gyro.oldest_unack ≡ some q) × (q ≢ p) × (ack_num_is_oldest b.gyro p ≡ false))
unfolding ack_num_is_oldest
IsOldest-cases b p = elim (Option-cases b.gyro.oldest_unack) [
  | inl e ↦ inl (inl e, rw e refl)
  | inr (q, e) ↦ elim (ℕ_discrete q p) [
    | yes h ↦ inl (inr (e ∙ ap some h), rw e ((==_iff q p).1 h))
    | no h ↦ inr (q, e, h, rw e (==_ne q p h))
  ]
]

-- What acknowledging the item `p` of slot `j` may lead to.
pub data Acknowledged (b : RingBuffer) (j p : ℕ) (item : RingItem) (b' : RingBuffer) : Type 0 where
  kept :
      (q : ℕ)
      → b.gyro.oldest_unack ≡ some q
      → q ≢ p
      → b' ≡ with_reset b p item
      → Acknowledged b j p item b'
  drained :
      IsOldest b p
      → SettledFrom (with_reset b p item) j 1 (1 + b.gyro.window)
      → b' ≡ with_reset b p item
      → Acknowledged b j p item b'
  moved :
      (q : ℕ)
      → IsOldest b p
      → FirstOutstanding (with_reset b p item) j 1 (1 + b.gyro.window) q
      → b' ≡ with_oldest (with_reset b p item) q
      → Acknowledged b j p item b'

acknowledge_cases :
    {b : RingBuffer} (j p : ℕ) (item : RingItem)
    → IsValid b
    → j < b.gyro.window
    → (b' : RingBuffer) × (acknowledge b j p item ≡ ret b') × Acknowledged b j p item b'
unfolding acknowledge
acknowledge_cases {b} j p item v h = elim (IsOldest-cases b p) [
  | inr (q, other, ne, e) ↦ (with_reset b p item, rw e refl, kept q other ne refl)
  | inl (first, e) ↦
      elim (find_unack_cases {b = with_reset b p item} j b.gyro.window 1
        (with_reset-IsValid p item v) h (omega arith)) [
          | inl (f, s) ↦ (with_reset b p item, rw (e, f) refl, drained first s refl)
          | inr (q, f, o) ↦
              (with_oldest (with_reset b p item) q, rw (e, f) refl, moved q first o refl)
        ]
]

-- What updateAckSeqNum may do with the number `n`: the new state and the error that it returns.
pub data AckOutcome (b : RingBuffer) (n : ℕ) (b' : RingBuffer) (err : Option Error) : Type 0 where
  unsent :
      get_elem? b.this ((n - 1) % b.gyro.window) ≡ some none
      → b' ≡ b
      → err ≡ some (errorf "%d seqNumAck is invalid" (n ∷ []))
      → AckOutcome b n b' err
  repeated :
      (p : ℕ) (item : RingItem)
      → get_elem? b.this ((n - 1) % b.gyro.window) ≡ some (some p)
      → get_elem? b.heap p ≡ some item
      → item.acknowledged ≡ true
      → b' ≡ b
      → err ≡ none
      → AckOutcome b n b' err
  mismatched :
      (p : ℕ) (item : RingItem)
      → Outstanding b ((n - 1) % b.gyro.window) p
      → get_elem? b.heap p ≡ some item
      → item.seq_num ≢ n
      → b' ≡ b
      → err
        ≡ some
            (errorf "seqNumAck does not match the reference value : %d, %d" (n ∷ item.seq_num ∷ []))
      → AckOutcome b n b' err
  matched :
      (p : ℕ) (item : RingItem)
      → Outstanding b ((n - 1) % b.gyro.window) p
      → get_elem? b.heap p ≡ some item
      → item.seq_num ≡ n
      → Acknowledged b ((n - 1) % b.gyro.window) p item b'
      → err ≡ none
      → AckOutcome b n b' err

numbered_outstanding :
    (w i n : ℕ) (item : RingItem)
    → 1 ≤ n
    → item.seq_num ≡ n
    → Fits w i item
    → item.acknowledged ≡ false
numbered_outstanding w i n item h e (inl (a, z)) = absurd (omega arith)
numbered_outstanding w i n item h e (inr (a, _, _)) = a

-- The slot's item has the number.
pub on_match :
    {b : RingBuffer} (n p : ℕ) (item : RingItem)
    → IsValid b
    → IsSeqNum n
    → get_elem? b.this ((n - 1) % b.gyro.window) ≡ some (some p)
    → get_elem? b.heap p ≡ some item
    → item.seq_num ≡ n
    → (b' : RingBuffer) × (update_ack_seq_num b n ≡ ret (b', none))
      × Acknowledged b ((n - 1) % b.gyro.window) p item b'
unfolding update_ack_seq_num
on_match {b} n p item v r e f same =
    let (b', run, done) =
      acknowledge_cases ((n - 1) % b.gyro.window) p item v (omega (arith, v.window_pos)) in
    (
      b',
      rw (modulus_of_pos b.gyro n v.window_pos r, e, load, f, (==_iff item.seq_num n).1 same, run),
      done,
    )

-- The code from the load of the slot's item on.
on_item :
    {b : RingBuffer} (n p : ℕ) (item : RingItem)
    → IsValid b
    → IsSeqNum n
    → get_elem? b.this ((n - 1) % b.gyro.window) ≡ some (some p)
    → get_elem? b.heap p ≡ some item
    → (b' : RingBuffer) × (err : Option Error) × (update_ack_seq_num b n ≡ ret (b', err))
      × AckOutcome b n b' err
unfolding update_ack_seq_num
on_item {b} n p item v r e f = elim (ℕ_discrete item.seq_num n) [
  | yes same ↦
      let (b', run, done) = on_match n p item v r e f same in
      let un =
        numbered_outstanding b.gyro.window _ n item (omega arith) same (v.slot_fits _ p item e f) in
      (b', none, run, matched p item (item, e, f, un) f same done refl)
  | no other ↦ elim (v.slot_fits _ p item e f) [
    | inl (a, z) ↦ (
      b,
      none,
      rw (modulus_of_pos b.gyro n v.window_pos r, e, load, f, ==_ne item.seq_num n other, z, a),
      repeated p item e f a refl refl,
    )
    | inr (a, range, _) ↦ (
      b,
      _,
      rw (
        modulus_of_pos b.gyro n v.window_pos r,
        e,
        load,
        f,
        ==_ne item.seq_num n other,
        ==_ne item.seq_num 0 (omega arith),
      ),
      mismatched p item (item, e, f, a) f other refl refl,
    )
  ]
]

-- On a valid buffer updateAckSeqNum never panics on a sequence number. It refuses one whose slot is
-- empty or holds an outstanding item of another number, passes over one whose slot's item is
-- acknowledged already, and changes nothing in these cases; otherwise it marks the item of that
-- number, and if that was the oldest one moves on to the next outstanding one, if there is one.
pub update_ack_seq_num_cases :
    {b : RingBuffer} (n : ℕ)
    → IsValid b
    → IsSeqNum n
    → (b' : RingBuffer) × (err : Option Error) × (update_ack_seq_num b n ≡ ret (b', err))
      × AckOutcome b n b' err
unfolding update_ack_seq_num
update_ack_seq_num_cases {b} n v r =
    let (slot, e) = get_elem?-lt b.this ((n - 1) % b.gyro.window) (slot_in_range n v) in
    elim (Option-cases slot) [
      | inl empty ↦
          let e' : get_elem? b.this ((n - 1) % b.gyro.window) ≡ some none = e ∙ ap some empty in
          (b, _, rw (modulus_of_pos b.gyro n v.window_pos r, e'), unsent e' refl refl)
      | inr (p, full) ↦
          let e' = e ∙ ap some full in
          let (item, f) = get_elem?-lt b.heap p (v.slot_alloc _ p e') in on_item n p item v r e' f
    ]

Acknowledged-IsValid :
    {b b' : RingBuffer} (j p : ℕ) (item : RingItem)
    → IsValid b
    → Acknowledged b j p item b'
    → IsValid b'
Acknowledged-IsValid j p item v (kept _ _ _ e) = rw e (with_reset-IsValid p item v)
Acknowledged-IsValid j p item v (drained _ _ e) = rw e (with_reset-IsValid p item v)
Acknowledged-IsValid {b} j p item v (moved q _ (t, _, _, _, (it, l, f, _)) e) =
    let v' = with_reset-IsValid p item v in rw e (with_oldest-IsValid q v' (v'.slot_alloc _ q l))

AckOutcome-IsValid :
    {b b' : RingBuffer} {err : Option Error} (n : ℕ)
    → IsValid b
    → AckOutcome b n b' err
    → IsValid b'
AckOutcome-IsValid n v (unsent _ e _) = rw e v
AckOutcome-IsValid n v (repeated _ _ _ _ _ e _) = rw e v
AckOutcome-IsValid n v (mismatched _ _ _ _ _ e _) = rw e v
AckOutcome-IsValid n v (matched p item _ _ _ done _) = Acknowledged-IsValid _ p item v done

-- The outcome of a run that is given.
pub ack_outcome :
    {b b' : RingBuffer} {err : Option Error} (n : ℕ)
    → IsValid b
    → IsSeqNum n
    → update_ack_seq_num b n ≡ ret (b', err)
    → AckOutcome b n b' err
ack_outcome {b} n v r e =
    let (c, x, run, out) = update_ack_seq_num_cases n v r in
    subst (λ t. AckOutcome b n t.0 t.1) (ret-injective (sym run ∙ e)) out

-- updateAckSeqNum keeps the invariant on every sequence number.
pub update_ack_seq_num-IsValid :
    {b b' : RingBuffer} (n : ℕ) {err : Option Error}
    → IsValid b
    → IsSeqNum n
    → update_ack_seq_num b n ≡ ret (b', err)
    → IsValid b'
update_ack_seq_num-IsValid n v r e = AckOutcome-IsValid n v (ack_outcome n v r e)
