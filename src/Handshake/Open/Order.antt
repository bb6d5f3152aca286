-- ===== src/Handshake/Open/Order.antt =====
-- dialer.go and listener.go: the order of the requests, and when both sides are opened.
use aionet.Common.{
  ℕ, ◌≡◌, ◌∙◌, ap, refl, sym, Option, Error, some, true, false, List, [], ◌∷◌, length, take, none,
  is_some, inl, inr, Bool-cases,
}
use aionet.EventMap.{HdpEvent, integer, state1, value, int, string, addr}
use aionet.EventMap.Key
use aionet.EventMap.Lookups.{value-set_key_self}
use aionet.EventMap.Build
use aionet.EventMap.Build.{with_args, new_event}
use aionet.EventMap.Reads.{get_err, get_flag1, flag1_of}
use aionet.Dtype.{
  hdp_accept, hdp_open1, hdp_connect, hdp_connect_ack, hdp_accept_ack, hdp_connected,
}
use aionet.Handshake.Open.{
  window_size_key, raddr_key, Result, with_flag1, open_both, refused, ask, dial, on_accept,
}

-- The sides and the flags of requests.
abbrev pub flags_of : List (ℕ × HdpEvent) → List (ℕ × ℕ)
flags_of [] = []
flags_of ((side, req) ∷ rs) = (side, get_flag1 none req) ∷ flags_of rs

pub get_flag1-with_flag1 : (flag : ℕ) (ev : HdpEvent) → get_flag1 none (with_flag1 flag ev) ≡ flag
unfolding get_flag1 with_flag1
get_flag1-with_flag1 flag ev = ap flag1_of (value-set_key_self Key.flag1 (integer state1 flag) ev)

pub first_flag :
    (a : ℕ)
    → get_flag1 none (
        new_event (
          integer state1 hdp_connect
          ∷ string Key.data_mark
          ∷ string window_size_key
          ∷ integer int 16
          ∷ string raddr_key
          ∷ addr a
          ∷ []))
      ≡ hdp_connect
unfolding get_flag1 new_event value window_size_key raddr_key Key.data_mark Key.flag1
    Build.as_string
first_flag a = refl

-- The error of the answer before, if there is one, and what the request after it is.
abbrev pub error_in : Option HdpEvent → Option Error
error_in none = none
error_in (some res) = get_err none res

abbrev pub Continues : Option HdpEvent → HdpEvent → Type 0
Continues none req = Unit
Continues (some res) req = req ≡ with_flag1 (get_flag1 none req) res

-- The requests were put one after the other to goroutines in the state s: none of them follows an
-- answer with an error, each is the answer before it with another flag, and the error of the last
-- answer is the one given.
abbrev pub Answered :
    {S : Type 0}
    → (S → ℕ → HdpEvent → HdpEvent × S)
    → S
    → Option HdpEvent
    → List (ℕ × HdpEvent)
    → Option Error
    → Type 0
Answered answer s last [] err = error_in last ≡ err
Answered answer s last ((side, req) ∷ rs) err =
    (error_in last ≡ none)
    × Continues last req
    × Answered answer (answer s side req).1 (some (answer s side req).0) rs err

-- The requests are the first of the list, in order, all of it when there is no error; every answer
-- but the last has no error, and the last one's is that of the call; both sides are opened, with
-- HDP_OPEN1, exactly when there is no error.
pub record InOrder {S : Type 0} (answer : S → ℕ → HdpEvent → HdpEvent × S) (s : S)
    (all : List (ℕ × ℕ)) (r : Result S) : Type 0 where
  pub order : flags_of r.asked ≡ take (length r.asked) all
  pub answers : Answered answer s none r.asked r.err
  pub opened :
      is_some r.err ≡ false
      → (flags_of r.asked ≡ all) × (flags_of r.opened ≡ (0, hdp_open1) ∷ (1, hdp_open1) ∷ [])
  pub refused : is_some r.err ≡ true → r.opened ≡ []

no_error_in : (o : Option Error) → is_some o ≡ false → o ≡ none
no_error_in none h = refl
no_error_in (some e) h = cc

module _ {S : Type 0} (answer : S → ℕ → HdpEvent → HdpEvent × S) where
  flags_of-open_both :
      (ev : HdpEvent) → flags_of (open_both answer ev) ≡ (0, hdp_open1) ∷ (1, hdp_open1) ∷ []
  unfolding open_both
  flags_of-open_both ev =
      let ev1 = with_flag1 hdp_open1 ev in
      rw (get_flag1-with_flag1 hdp_open1 ev, get_flag1-with_flag1 hdp_open1 ev1) refl

  ask-Answered :
      (rest : List (ℕ × ℕ)) (side : ℕ) (req : HdpEvent) (s : S) (last : Option HdpEvent)
      → error_in last ≡ none
      → Continues last req
      → Answered answer s last (ask answer rest side req s).asked (ask answer rest side req s).err
  unfolding ask refused
  ask-Answered [] side req s last h c =
      let res = (answer s side req).0 in
      elim (Bool-cases (is_some (get_err none res))) [
        | inl e ↦ rw e (h, c, refl)
        | inr e ↦ rw e (h, c, no_error_in (get_err none res) e)
      ]
  ask-Answered ((side1, flag1) ∷ rest) side req s last h c =
      let res = (answer s side req).0 in
      let later = ask-Answered rest side1 (with_flag1 flag1 res) (answer s side req).1 (some res) in
      elim (Bool-cases (is_some (get_err none res))) [
        | inl e ↦ rw e (h, c, refl)
        | inr e ↦ rw e (
          h,
          c,
          later (no_error_in (get_err none res) e)
              (ap (λ f. with_flag1 f res) (sym (get_flag1-with_flag1 flag1 res))),
        )
      ]

  ask-InOrder :
      (rest : List (ℕ × ℕ)) (side flag : ℕ) (req : HdpEvent) (s : S)
      → get_flag1 none req ≡ flag
      → InOrder answer s ((side, flag) ∷ rest) (ask answer rest side req s)
  unfolding ask refused
  ask-InOrder [] side flag req s h =
      let res = (answer s side req).0 in
      elim (Bool-cases (is_some (get_err none res))) [
        | inl e ↦ rw e (record {
          order = ap (λ f. (side, f) ∷ []) h;
          answers = (refl, tt, refl);
          opened = λ n. cc;
          refused = λ n. refl;
        })
        | inr e ↦ rw e (record {
          order = ap (λ f. (side, f) ∷ []) h;
          answers = (refl, tt, no_error_in (get_err none res) e);
          opened = λ n. (ap (λ f. (side, f) ∷ []) h, flags_of-open_both res);
          refused = λ n. cc;
        })
      ]
  ask-InOrder ((side1, flag1) ∷ rest) side flag req s h =
      let res = (answer s side req).0 in
      let later_asked =
        (ask answer rest side1 (with_flag1 flag1 res) (answer s side req).1).asked in
      let later =
        ask-InOrder rest side1 flag1 (with_flag1 flag1 res) (answer s side req).1
          (get_flag1-with_flag1 flag1 res) in
      elim (Bool-cases (is_some (get_err none res))) [
        | inl e ↦ rw e (record {
          order = ap (λ f. (side, f) ∷ []) h;
          answers = (refl, tt, refl);
          opened = λ n. cc;
          refused = λ n. refl;
        })
        | inr e ↦ rw e (record {
          order =
              ap (λ f. (side, f) ∷ flags_of later_asked) h ∙ ap (λ l. (side, flag) ∷ l) later.order;
          answers = (
            refl,
            tt,
            ask-Answered rest side1 (with_flag1 flag1 res) (answer s side req).1 (some res)
                (no_error_in (get_err none res) e)
                (ap (λ f. with_flag1 f res) (sym (get_flag1-with_flag1 flag1 res))),
          );
          opened = λ n. (
            ap (λ f. (side, f) ∷ flags_of later_asked) h
                ∙ ap (λ l. (side, flag) ∷ l) (later.opened n).0,
            (later.opened n).1,
          );
          refused = later.refused;
        })
      ]

  -- Whatever the goroutines answer, Dial asks the writer to connect, the reader for the
  -- acknowledgement, the writer to acknowledge, and the reader for the open status, and onAccept
  -- the same flags of the other side's goroutines after its reader's accept: in this order, each
  -- request the answer before it with its own flag, up to the first answer with an error, which is
  -- the error of the call: every answer before it had none. Without an error all four were asked,
  -- and then the reader and the writer are each sent HDP_OPEN1; with one, neither is.
  pub dial-InOrder :
      (a : ℕ) (s t : S)
      → InOrder answer s
          ((1, hdp_connect) ∷ (0, hdp_connect_ack) ∷ (1, hdp_accept_ack) ∷ (0, hdp_connected) ∷ [])
          (dial answer (inr a) s)
        × InOrder answer t
            ((0, hdp_accept) ∷ (1, hdp_connect_ack) ∷ (0, hdp_accept_ack) ∷ (1, hdp_connected) ∷ [])
            (on_accept answer t)
  unfolding dial on_accept
  dial-InOrder a s t = (
    ask-InOrder _ 1 hdp_connect _ s (first_flag a),
    ask-InOrder _ 0 hdp_accept _ t (get_flag1-with_flag1 hdp_accept []),
  )
