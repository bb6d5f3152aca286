-- ===== src/Handshake/Headers/Whole.antt =====
-- transport.go, readHeader and writeHeader: the loops end, and without an error only when the
-- header is whole.
use aionet.Common.{
  ℕ, zero, suc, ◌-◌, ◌≡◌, ◌≤◌, ◌<◌, refl, arith, false, List, [], ◌∷◌, length, drop, Bool, Option,
  none, some, is_some, Error, if◌then◌else◌, length-append, length-drop, Bool-cases, inl, inr,
}
use aionet.Transport.{Kernel, retry}
use aionet.Transport.Writer as Writer
use aionet.Transport.Writer.{Count, write, settled, counted, is_interrupted}
use aionet.Handshake.Headers.{
  read_rest, read_awake, read_header, write_rest, write_awake, write_header,
}

module _ {S : Type 0} (k : Kernel S) where
  retry-some_byte :
      (fuel n : ℕ) (s : S)
      → (retry k.read fuel s n).err ≡ none
      → 0 < length (retry k.read fuel s n).bytes
  unfolding retry
  retry-some_byte zero n s h = cc
  retry-some_byte (suc fuel) n s h = ground (arith, retry-some_byte fuel n (k.read s n).2)

  retry-fits :
      (fuel n : ℕ) (s : S)
      → ((t : S) (m : ℕ) → length (k.read t m).0 ≤ m)
      → length (retry k.read fuel s n).bytes ≤ n
  unfolding retry
  retry-fits zero n s h = omega arith
  retry-fits (suc fuel) n s h = ground (arith, h s n, retry-fits fuel n (k.read s n).2 h)

module _ {S : Type 0} (k : Writer.Kernel S) where
  write-some_byte :
      (fuel : ℕ) (s : S) (p : List ℕ)
      → 0 < length p
      → (write k fuel s p).error ≡ none
      → 0 < (write k fuel s p).count
  unfolding write settled
  write-some_byte zero s p l h = cc
  write-some_byte (suc fuel) s p l h = ground (arith, write-some_byte fuel (k.write s p).2 p l)

  write-fits :
      (fuel : ℕ) (s : S) (p : List ℕ)
      → ((t : S) (q : List ℕ) → (k.write t q).0 ≤ length q)
      → (write k fuel s p).count ≤ length p
  unfolding write settled
  write-fits zero s p h = omega arith
  write-fits (suc fuel) s p h = ground (arith, h s p, write-fits fuel (k.write s p).2 p h)

none_of_is_some : (e : Option Error) → is_some e ≡ false → e ≡ none
none_of_is_some none h = refl
none_of_is_some (some e) h = cc

module _ {S : Type 0} (k : Kernel S) (waits : Writer.Kernel S) (fuel : ℕ) where
  read_rest-same :
      (r1 r2 n : ℕ) (s : S)
      → n ≤ r1
      → n ≤ r2
      → read_rest k waits fuel r1 s n ≡ read_rest k waits fuel r2 s n
  unfolding read_rest
  read_rest-same zero zero zero s h1 h2 = refl
  read_rest-same zero (suc r2) zero s h1 h2 = refl
  read_rest-same (suc r1) zero zero s h1 h2 = refl
  read_rest-same (suc r1) (suc r2) zero s h1 h2 = refl
  read_rest-same zero r2 (suc n) s h1 h2 = elim h1 [ ]
  read_rest-same (suc r1) zero (suc n) s h1 h2 = elim h2 [ ]
  read_rest-same (suc r1) (suc r2) (suc n) s h1 h2 =
      let c = retry k.read fuel s (suc n) in
      elim (Bool-cases (is_some c.err)) [
        | inl e ↦ rw e refl
        | inr e ↦
            let pos = retry-some_byte k fuel (suc n) s (none_of_is_some c.err e) in
            rw
              (e, read_rest-same r1 r2 (suc n - length c.bytes) c.after (omega arith) (omega arith))
              refl
      ]

  read_rest-whole :
      (r n : ℕ) (s : S)
      → ((t : S) (m : ℕ) → length (k.read t m).0 ≤ m)
      → n ≤ r
      → (read_rest k waits fuel r s n).err ≡ none
      → length (read_rest k waits fuel r s n).bytes ≡ n
  unfolding read_rest
  read_rest-whole zero zero s b h e = refl
  read_rest-whole (suc r) zero s b h e = refl
  read_rest-whole zero (suc n) s b h e = elim h [ ]
  read_rest-whole (suc r) (suc n) s b h e =
      let c = retry k.read fuel s (suc n) in
      let rest = read_rest k waits fuel r c.after (suc n - length c.bytes) in
      let fits = retry-fits k fuel (suc n) s b in
      let pos = retry-some_byte k fuel (suc n) s in
      ground (
        arith,
        e,
        fits,
        pos,
        length-append c.bytes rest.bytes,
        read_rest-whole r (suc n - length c.bytes) c.after b,
      )

  write_rest-same :
      (r1 r2 : ℕ) (s : S) (p : List ℕ)
      → length p ≤ r1
      → length p ≤ r2
      → write_rest k waits fuel r1 s p ≡ write_rest k waits fuel r2 s p
  unfolding write_rest
  write_rest-same zero zero s [] h1 h2 = refl
  write_rest-same zero (suc r2) s [] h1 h2 = refl
  write_rest-same (suc r1) zero s [] h1 h2 = refl
  write_rest-same (suc r1) (suc r2) s [] h1 h2 = refl
  write_rest-same zero r2 s (b ∷ p) h1 h2 = elim h1 [ ]
  write_rest-same (suc r1) zero s (b ∷ p) h1 h2 = elim h2 [ ]
  write_rest-same (suc r1) (suc r2) s (b ∷ p) h1 h2 =
      let c = write waits fuel s (b ∷ p) in
      elim (Bool-cases (is_some c.error)) [
        | inl e ↦ rw e refl
        | inr e ↦
            let pos =
              write-some_byte waits fuel s (b ∷ p) (omega arith) (none_of_is_some c.error e) in
            let left = length-drop c.count (b ∷ p) in
            rw
              (
                e,
                write_rest-same r1 r2 c.after (drop c.count (b ∷ p)) (omega (arith, left, pos))
                    (omega (arith, left, pos)),
              )
              refl
      ]

  write_rest-whole :
      (r : ℕ) (s : S) (p : List ℕ)
      → ((t : S) (q : List ℕ) → (waits.write t q).0 ≤ length q)
      → length p ≤ r
      → (write_rest k waits fuel r s p).error ≡ none
      → (write_rest k waits fuel r s p).count ≡ length p
  unfolding write_rest
  write_rest-whole zero s [] b h e = refl
  write_rest-whole (suc r) s [] b h e = refl
  write_rest-whole zero s (x ∷ p) b h e = elim h [ ]
  write_rest-whole (suc r) s (x ∷ p) b h e =
      let c = write waits fuel s (x ∷ p) in
      let fits = write-fits waits fuel s (x ∷ p) b in
      let pos = write-some_byte waits fuel s (x ∷ p) (omega arith) in
      ground (
        arith,
        e,
        fits,
        pos,
        length-drop c.count (x ∷ p),
        write_rest-whole r c.after (drop c.count (x ∷ p)) b,
      )

  read_awake-whole :
      (a : Option Error × S) (n : ℕ)
      → ((t : S) (m : ℕ) → length (k.read t m).0 ≤ m)
      → (read_awake k waits fuel n a).err ≡ none
      → length (read_awake k waits fuel n a).bytes ≡ n
  unfolding read_awake
  read_awake-whole (some x, s) n b e = cc
  read_awake-whole (none, s) n b e = read_rest-whole n n s b (omega arith) e

  write_awake-whole :
      (a : Option Error × S) (p : List ℕ)
      → ((t : S) (q : List ℕ) → (waits.write t q).0 ≤ length q)
      → (write_awake k waits fuel p a).error ≡ none
      → (write_awake k waits fuel p a).count ≡ length p
  unfolding write_awake
  write_awake-whole (some x, s) p b e = cc
  write_awake-whole (none, s) p b e = write_rest-whole (length p) s p b (omega arith) e

  -- When the system never reads or writes more bytes than it is asked to, readHeader returns
  -- without an error only with as many bytes as its slice holds, and writeHeader only after it
  -- wrote all of its header, in however many pieces; as many rounds of their loops as there are
  -- bytes are enough, and more give the same.
  pub header_is_whole :
      (s : S) (n : ℕ) (p : List ℕ) (io_ready : Bool)
      → ((t : S) (m : ℕ) → length (k.read t m).0 ≤ m)
      → ((t : S) (q : List ℕ) → (waits.write t q).0 ≤ length q)
      → ((read_header k waits fuel s n).err ≡ none
          → length (read_header k waits fuel s n).bytes ≡ n)
        × ((write_header k waits fuel s p io_ready).error ≡ none
            → (write_header k waits fuel s p io_ready).count ≡ length p)
        × ((r : ℕ) → n ≤ r → read_rest k waits fuel r s n ≡ read_rest k waits fuel n s n)
        × ((r : ℕ)
            → length p ≤ r
            → write_rest k waits fuel r s p ≡ write_rest k waits fuel (length p) s p)
  unfolding read_header write_header
  header_is_whole s n p io_ready br bw = (
    read_awake-whole (waits.wait s 2) n br,
    write_awake-whole (if io_ready then (none, s) else waits.wait s 5) p bw,
    λ r h. read_rest-same r n n s h (omega arith),
    λ r h. write_rest-same r (length p) s p h (omega arith),
  )
