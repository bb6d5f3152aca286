-- ===== src/Transport/Writer/Forgets.antt =====
-- transport1.go, hdpWrite2: outcomes in which no number of the peer's is stored.
use aionet.Common.{
  ℕ, ◌≡◌, ap, Bool, true, false, inl, inr, Bool-cases, Option, none, some, Error, Go, ret, panics,
  ◌>>=◌, if◌then◌else◌,
}
use aionet.Buffers.{BufferSn, new_buffer_sn, sn_is_empty, is_full, pop_left}
use aionet.RingBuffer.{RingBuffer, next_seq_num}
use aionet.EventMap.{HdpEvent}
use aionet.Transport.Writer.{Writer, send}
use aionet.Transport.Writer.Handlers.{put_frame, number_frame, numbering}

-- The outcome is a panic, or a writer with no number of the peer's stored.
abbrev pub Forgets : Go Writer → Type 0
Forgets (ret w) = w.peer_seq_num ≡ new_buffer_sn
Forgets (panics e) = Unit

abbrev pub ForgetsWith : {S : Type 0} → Go (Writer × S) → Type 0
ForgetsWith (ret p) = p.0.peer_seq_num ≡ new_buffer_sn
ForgetsWith (panics e) = Unit

pub Forgets-bind :
    {A : Type 0} (m : Go A) (f : A → Writer)
    → ((a : A) → (f a).peer_seq_num ≡ new_buffer_sn)
    → Forgets (m >>= λ a. ret (f a))
Forgets-bind (ret a) f h = h a
Forgets-bind (panics e) f h = tt

numbering-empty : (n : ℕ) (b : BufferSn) → b ≡ new_buffer_sn → (numbering n b).1 ≡ new_buffer_sn
unfolding numbering sn_is_empty pop_left new_buffer_sn
numbering-empty n b h = ap (λ c. (numbering n c).1) h

number_frame-forgets :
    (req : HdpEvent) (w : Writer) (x : RingBuffer × ℕ × Option Error)
    → w.peer_seq_num ≡ new_buffer_sn
    → (number_frame req w x).peer_seq_num ≡ new_buffer_sn
unfolding number_frame send
number_frame-forgets req w (ring, n, some e) h = h
number_frame-forgets req w (ring, n, none) h = numbering-empty n w.peer_seq_num h

pub put_frame-Forgets :
    (req : HdpEvent) (w : Writer) → w.peer_seq_num ≡ new_buffer_sn → Forgets (put_frame req w)
unfolding put_frame send
put_frame-Forgets req w h = elim (Bool-cases (is_full w.buffer)) [
  | inl e ↦ rw e h
  | inr e ↦ rw e (
      Forgets-bind (next_seq_num w.ring) (number_frame req w) (λ x. number_frame-forgets req w x h))
]

module _ {S : Type 0} where
  pub ForgetsWith-bind :
      {A : Type 0} (m : Go A) (f : A → Writer × S)
      → ((a : A) → (f a).0.peer_seq_num ≡ new_buffer_sn)
      → ForgetsWith (m >>= λ a. ret (f a))
  ForgetsWith-bind (ret a) f h = h a
  ForgetsWith-bind (panics e) f h = tt

  pub ForgetsWith-then :
      {A : Type 0} (m : Go A) (f : A → Go (Writer × S))
      → ((a : A) → ForgetsWith (f a))
      → ForgetsWith (m >>= f)
  ForgetsWith-then (ret a) f h = h a
  ForgetsWith-then (panics e) f h = tt

  pub ForgetsWith-paired : (m : Go Writer) (s : S) → Forgets m → ForgetsWith (m >>= λ w. ret (w, s))
  ForgetsWith-paired (ret w) s h = h
  ForgetsWith-paired (panics e) s h = tt

  pub ForgetsWith-next :
      (m : Go (Writer × S)) (f : Writer × S → Go (Writer × S))
      → ForgetsWith m
      → ((w : Writer) (s : S) → w.peer_seq_num ≡ new_buffer_sn → ForgetsWith (f (w, s)))
      → ForgetsWith (m >>= f)
  ForgetsWith-next (ret p) f h g = g p.0 p.1 h
  ForgetsWith-next (panics e) f h g = tt

pub ForgetsWith-if :
    {S : Type 0} (b : Bool) (x y : Go (Writer × S))
    → ForgetsWith x
    → ForgetsWith y
    → ForgetsWith (if b then x else y)
ForgetsWith-if true x y h g = h
ForgetsWith-if false x y h g = g
