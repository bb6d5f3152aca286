-- ===== src/RingBuffer/Ack.antt =====
-- ringbuffer.go: updateAckSeqNum, its search for the next oldest item, and every branch.
use native.Mathlib.Decide.{ℕ_discrete}
use aionet.Common.{
  ℕ, zero, suc, ◌+◌, ◌%◌, ◌≤◌, ◌<◌, ◌≡◌, refl, ◌⊎◌, inl, inr, true, false, Option, none, some,
  arith, get_elem?, Go, ret, rem, add32, ◌∙◌, ◌>>=◌, get_elem?-lt, Bool-cases,
}
use aionet.RingBuffer.{RingItem, RingBuffer, find_unack, load, look_at_slot}
use aionet.RingBuffer.Valid.{IsValid, rem_pos}

-- The slot is empty, or its item is acknowledged.
abbrev pub Settled : RingBuffer → ℕ → Type 0
Settled b k =
    (get_elem? b.this k ≡ some none)
    ⊎ ((p : ℕ) × (item : RingItem) × (get_elem? b.this k ≡ some (some p))
        × (get_elem? b.heap p ≡ some item)
        × (item.acknowledged ≡ true))

-- The slot holds an item that waits for its acknowledgement.
abbrev pub Outstanding : RingBuffer → ℕ → ℕ → Type 0
Outstanding b k p =
    (item : RingItem) × (get_elem? b.this k ≡ some (some p))
    × (get_elem? b.heap p ≡ some item)
    × (item.acknowledged ≡ false)

slot_cases :
    {b : RingBuffer} (k : ℕ)
    → IsValid b
    → k < b.gyro.window
    → Settled b k ⊎ ((p : ℕ) × Outstanding b k p)
slot_cases {b} k v h = let (slot, e) = get_elem?-lt b.this k (omega (arith, v.slots)) in go slot e
  where
    go :
        (slot : Option ℕ)
        → get_elem? b.this k ≡ some slot
        → Settled b k ⊎ ((p : ℕ) × Outstanding b k p)
    go none e = inl (inl e)
    go (some p) e =
        let (item, f) = get_elem?-lt b.heap p (v.slot_alloc k p e) in
        elim (Bool-cases item.acknowledged) [
          | inl a ↦ inl (inr (p, item, e, f, a))
          | inr a ↦ inr (p, (item, e, f, a))
        ]

-- The indices `(j + i) % window` up to, not including, `(j + m) % window` are settled.
abbrev pub SettledFrom : RingBuffer → ℕ → ℕ → ℕ → Type 0
SettledFrom b j i m = (t : ℕ) → i ≤ t → t < m → Settled b ((j + t) % b.gyro.window)

-- `p` is the first outstanding item from the index `(j + i) % window` on.
abbrev pub FirstOutstanding : RingBuffer → ℕ → ℕ → ℕ → ℕ → Type 0
FirstOutstanding b j i m p =
    (t : ℕ) × (i ≤ t) × (t < m) × SettledFrom b j i t × Outstanding b ((j + t) % b.gyro.window) p

look_at_slot-Settled :
    (b : RingBuffer) (k : ℕ) (rest : Go (Option ℕ)) → Settled b k → look_at_slot b k rest ≡ rest
unfolding look_at_slot
look_at_slot-Settled b k rest (inl empty) = rw empty
look_at_slot-Settled b k rest (inr (p, item, l, f, a)) = rw (l, load, f, a)

look_at_slot-Outstanding :
    (b : RingBuffer) (k p : ℕ) (rest : Go (Option ℕ))
    → Outstanding b k p
    → look_at_slot b k rest ≡ ret (some p)
unfolding look_at_slot
look_at_slot-Outstanding b k p rest (item, l, f, a) = rw (l, load, f, a)

find_unack_lem :
    (b : RingBuffer) (j n i : ℕ)
    → find_unack b j (suc n) i
      ≡ (rem (add32 j i) b.gyro.window >>= λ k. look_at_slot b k (find_unack b j n (add32 i 1)))
unfolding find_unack
find_unack_lem b j n i = refl

find_unack-suc :
    {b : RingBuffer} (j n i : ℕ)
    → IsValid b
    → j < b.gyro.window
    → i + suc n ≤ b.gyro.window + 1
    → find_unack b j (suc n) i ≡ look_at_slot b ((j + i) % b.gyro.window) (find_unack b j n (i + 1))
find_unack-suc {b} j n i v h k =
    let e : add32 j i ≡ j + i = omega (arith, v.window_small) in
    let e' : add32 i 1 ≡ i + 1 = omega (arith, v.window_small) in
    find_unack_lem b j n i ∙ rw (e, e', rem_pos (j + i) b.gyro.window v.window_pos)

-- On a valid buffer the search over `n` indices from `(j + i) % window` on, which end one round
-- after `j` at most, answers the first outstanding item among them, or nothing when all are
-- settled.
pub find_unack_cases :
    {b : RingBuffer} (j n i : ℕ)
    → IsValid b
    → j < b.gyro.window
    → i + n ≤ b.gyro.window + 1
    → ((find_unack b j n i ≡ ret none) × SettledFrom b j i (i + n))
      ⊎ ((p : ℕ) × (find_unack b j n i ≡ ret (some p)) × FirstOutstanding b j i (i + n) p)
find_unack_cases {b} j zero i v h k = inl (unfold find_unack in refl, λ t a c. absurd (omega arith))
find_unack_cases {b} j (suc n) i v h k =
    elim (slot_cases ((j + i) % b.gyro.window) v (omega (arith, v.window_pos))) [
      | inl s ↦ elim (find_unack_cases j n (i + 1) v h (omega arith)) [
        | inl (e, rest) ↦ inl (settled s ∙ e, λ t a c. extend s rest t a (omega arith))
        | inr (p, e, (t, a, c, rest, o)) ↦
            inr (p, settled s ∙ e, (t, omega arith, omega arith, extend s rest, o))
      ]
      | inr (p, o) ↦ inr (
        p,
        find_unack-suc j n i v h k ∙ look_at_slot-Outstanding b _ p _ o,
        (i, omega arith, omega arith, (λ t a c. absurd (omega arith)), o),
      )
    ]
  where
    settled :
        Settled b ((j + i) % b.gyro.window) → find_unack b j (suc n) i ≡ find_unack b j n (i + 1)
    settled s = find_unack-suc j n i v h k ∙ look_at_slot-Settled b _ _ s

    extend :
        {m : ℕ}
        → Settled b ((j + i) % b.gyro.window)
        → SettledFrom b j (i + 1) m
        → SettledFrom b j i m
    extend s rest t a c = elim (ℕ_discrete t i) [ yes e ↦ rw e s | no ne ↦ rest t (omega arith) c ]
