-- ===== src/Transport/Writer/Retries.antt =====
-- sock1.go, write, and transport1.go, write1: the loops end, and with what.
use aionet.Common.{
  ℕ, zero, suc, ◌≡◌, ◌<◌, refl, ◌⊎◌, inl, inr, arith, true, false, List, some, Bool-cases, eof, ◌∙◌,
  ap, sym,
}
use aionet.Transport.{is_errno, eagain}
use aionet.Transport.Writer.{Kernel, Count, is_interrupted, settled, counted, write, tries, write1}

module _ {S : Type 0} (k : Kernel S) (p : List ℕ) where
  -- From the first system, this many calls are interrupted, and the next, in the second system, is
  -- not.
  abbrev pub Interrupted : ℕ → S → S → Type 0
  Interrupted zero s t = (s ≡ t) × (is_interrupted (k.write s p).0 (k.write s p).1 ≡ false)
  Interrupted (suc n) s t =
      (is_interrupted (k.write s p).0 (k.write s p).1 ≡ true) × Interrupted n (k.write s p).2 t

  -- When the system interrupts the write n times and then answers, the loop ends with that answer,
  -- whatever number of calls over n it is allowed, and the answer is not EINTR with no byte
  -- written.
  pub write-ends :
      (n fuel : ℕ) (s t : S)
      → Interrupted n s t
      → n < fuel
      → (write k fuel s p ≡ counted (settled p (k.write t p)))
        × (is_interrupted (k.write t p).0 (k.write t p).1 ≡ false)
  unfolding write settled
  write-ends n zero s t h l = elim l [ ]
  write-ends zero (suc fuel) s t (e, h) l = (
    rw h refl ∙ ap (λ u. counted (settled p (k.write u p))) e,
    ap (λ u. is_interrupted (k.write u p).0 (k.write u p).1) (sym e) ∙ h,
  )
  write-ends (suc n) (suc fuel) s t (e, h) l =
      let r = write-ends n fuel (k.write s p).2 t h (omega arith) in (rw e r.0, r.1)

  abbrev try : ℕ → S → Count S
  try fuel s = write k fuel s p

  -- `write1` makes at most three writes. It returns the first that does not end with EAGAIN, and
  -- io.EOF with no byte when all three do; so it never returns EAGAIN.
  pub write1_cases :
      (fuel : ℕ) (s : S)
      → (let a = write k fuel s p in
          let b = write k fuel a.after p in
          let c = write k fuel b.after p in
          let r = write1 k fuel s p in
          (is_errno eagain r.error ≡ false)
          × ((r ≡ a)
              ⊎ ((is_errno eagain a.error ≡ true) × (r ≡ b))
              ⊎ ((is_errno eagain a.error ≡ true) × (is_errno eagain b.error ≡ true) × (r ≡ c))
              ⊎ ((is_errno eagain a.error ≡ true)
                  × (is_errno eagain b.error ≡ true)
                  × (is_errno eagain c.error ≡ true)
                  × (r ≡ record { count = 0; error = some eof; after = c.after }))))
  unfolding write1 tries
  write1_cases fuel s = elim (Bool-cases (is_errno eagain (try fuel s).error)) [
    | inr e ↦ rw e (e, inl refl)
    | inl e ↦ elim (Bool-cases (is_errno eagain (try fuel (try fuel s).after).error)) [
      | inr e2 ↦ rw (e, e2) (e2, inr (inl (refl, refl)))
      | inl e2 ↦
          elim (Bool-cases (is_errno eagain (try fuel (try fuel (try fuel s).after).after).error)) [
            | inr e3 ↦ rw (e, e2, e3) (e3, inr (inr (inl (refl, refl, refl))))
            | inl e3 ↦ rw (e, e2, e3) (refl, inr (inr (inr (refl, refl, refl, refl))))
          ]
    ]
  ]
