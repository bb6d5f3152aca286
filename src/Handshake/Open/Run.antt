-- ===== src/Handshake/Open/Run.antt =====
-- transport.go: the loops of run of hdpRead1 and hdpWrite1, which handle the requests of their side
-- until one tells them to hand the connection over to hdpRead2 or hdpWrite2.
use aionet.Common.{
  ℕ, ◌≡◌, ◌∙◌, ◌==◌, ap, refl, false, if◌then◌else◌, List, [], ◌∷◌, ◌++◌, none, is_some, inl, inr,
  Bool-cases,
}
use aionet.EventMap.{HdpEvent, integer, state1, value, int, string, addr}
use aionet.EventMap.Key
use aionet.EventMap.Lookups.{value-set_key_ne}
use aionet.EventMap.Build
use aionet.EventMap.Build.{with_args, new_event}
use aionet.EventMap.Reads.{get_err, get_flag1, error_of}
use aionet.Dtype.{
  hdp_accept, hdp_open1, hdp_connect, hdp_connect_ack, hdp_accept_ack, hdp_connected,
}
use aionet.Handshake.Open.{
  window_size_key, raddr_key, Result, with_flag1, open_both, refused, ask, dial, on_accept,
}
use aionet.Handshake.Open.Order.{first_flag, get_flag1-with_flag1}

-- A loop that ended with an error or handed the connection over, or waits for another request.
pub data End : Type 0 where
  stopped handed_over waiting : End

module _ {S : Type 0} (handle : S → HdpEvent → S) where
  -- `run`, over the events that it receives.
  unfoldable pub run : List HdpEvent → S → End × S
  run [] s = (waiting, s)
  run (ev ∷ evs) s =
      let rest = run evs (handle s ev) in
      if is_some (get_err none ev)
      then (stopped, s)
      else if get_flag1 none ev == hdp_open1
      then (handed_over, s)
      else rest

  -- The system after these requests are handled.
  abbrev pub handled : List HdpEvent → S → S
  handled [] s = s
  handled (ev ∷ evs) s = handled evs (handle s ev)

  run-handled :
      (ev : HdpEvent) (evs : List HdpEvent) (s : S)
      → is_some (get_err none ev) ≡ false
      → (get_flag1 none ev == hdp_open1) ≡ false
      → run (ev ∷ evs) s ≡ run evs (handle s ev)
  unfolding run
  run-handled ev evs s e f = rw (e, f) refl

  run-open :
      (ev : HdpEvent) (s : S)
      → is_some (get_err none ev) ≡ false
      → get_flag1 none ev ≡ hdp_open1
      → run (ev ∷ []) s ≡ (handed_over, s)
  unfolding run
  run-open ev s e f = rw (e, f) refl

-- The requests of one side.
abbrev pub to_side : ℕ → List (ℕ × HdpEvent) → List HdpEvent
to_side side [] = []
to_side side ((n, ev) ∷ rs) = let rest = to_side side rs in if n == side then ev ∷ rest else rest

-- Requests without an error that do not hand over.
abbrev pub Plain : List (ℕ × HdpEvent) → Type 0
Plain [] = Unit
Plain ((n, ev) ∷ rs) =
    (is_some (get_err none ev) ≡ false) × ((get_flag1 none ev == hdp_open1) ≡ false) × Plain rs

abbrev pub OtherFlags : List (ℕ × ℕ) → Type 0
OtherFlags [] = Unit
OtherFlags ((n, flag) ∷ rs) = ((flag == hdp_open1) ≡ false) × OtherFlags rs

run-Plain :
    {S : Type 0} (handle : S → HdpEvent → S) (side : ℕ) (asked last : List (ℕ × HdpEvent)) (s : S)
    → Plain asked
    → run handle (to_side side (asked ++ last)) s
      ≡ run handle (to_side side last) (handled handle (to_side side asked) s)
run-Plain handle side [] last s h = refl
run-Plain handle side ((n, ev) ∷ asked) last s h = elim (Bool-cases (n == side)) [
  | inl e ↦ rw e (
      run-handled handle ev (to_side side (asked ++ last)) s h.0 h.1
      ∙ run-Plain handle side asked last (handle s ev) h.2)
  | inr e ↦ rw e (run-Plain handle side asked last s h.2)
]

get_err-with_flag1 :
    (flag : ℕ) (ev : HdpEvent) → get_err none (with_flag1 flag ev) ≡ get_err none ev
unfolding get_err with_flag1 Key.error Key.flag1
get_err-with_flag1 flag ev =
    ap error_of (value-set_key_ne Key.flag1 Key.error (integer state1 flag) ev refl)

-- When r has no error, the loops of both sides handle exactly the requests that they were asked, in
-- order, and then hand the connection over.
pub record HandsOver {S : Type 0} (r : Result S) : Type 1 where
  pub plain : is_some r.err ≡ false → Plain r.asked
  pub over :
      is_some r.err ≡ false
      → {T : Type 0} (handle : T → HdpEvent → T) (t : T)
      → (run handle (to_side 0 r.opened) t ≡ (handed_over, t))
        × (run handle (to_side 1 r.opened) t ≡ (handed_over, t))

first_clean :
    (a : ℕ)
    → is_some (
        get_err none (
          new_event (
            integer state1 hdp_connect
            ∷ string Key.data_mark
            ∷ string window_size_key
            ∷ integer int 16
            ∷ string raddr_key
            ∷ addr a
            ∷ [])))
      ≡ false
unfolding get_err new_event value window_size_key raddr_key Key.data_mark Key.flag1 Key.error
    Build.as_string
first_clean a = refl

accept_clean : is_some (get_err none (new_event (integer state1 hdp_accept ∷ []))) ≡ false
unfolding get_err new_event value Key.flag1 Key.error
accept_clean = refl

-- The calls that open a connection.
pub data Call : Type 0 where
  dials : ℕ → Call
  accepts : Call

module _ {S : Type 0} (answer : S → ℕ → HdpEvent → HdpEvent × S) where
  run-open_both :
      {T : Type 0} (handle : T → HdpEvent → T) (t : T) (ev : HdpEvent)
      → is_some (get_err none ev) ≡ false
      → (run handle (to_side 0 (open_both answer ev)) t ≡ (handed_over, t))
        × (run handle (to_side 1 (open_both answer ev)) t ≡ (handed_over, t))
  unfolding open_both
  run-open_both handle t ev h =
      let ev1 = with_flag1 hdp_open1 ev in
      let clean = ap is_some (get_err-with_flag1 hdp_open1 ev) ∙ h in
      (
        run-open handle ev1 t clean (get_flag1-with_flag1 hdp_open1 ev),
        run-open handle (with_flag1 hdp_open1 ev1) t
            (ap is_some (get_err-with_flag1 hdp_open1 ev1) ∙ clean)
            (get_flag1-with_flag1 hdp_open1 ev1),
      )

  ask-HandsOver :
      (rest : List (ℕ × ℕ)) (side : ℕ) (req : HdpEvent) (s : S)
      → OtherFlags rest
      → is_some (get_err none req) ≡ false
      → (get_flag1 none req == hdp_open1) ≡ false
      → HandsOver (ask answer rest side req s)
  unfolding ask refused
  ask-HandsOver [] side req s o clean f =
      let res = (answer s side req).0 in
      elim (Bool-cases (is_some (get_err none res))) [
        | inl e ↦ rw e (record { plain = λ n. cc; over = λ n. cc })
        | inr e ↦ rw e (record {
          plain = λ n. (clean, f, tt);
          over = λ n handle t. run-open_both handle t res e;
        })
      ]
  ask-HandsOver ((side1, flag) ∷ rest) side req s o clean f =
      let res = (answer s side req).0 in
      elim (Bool-cases (is_some (get_err none res))) [
        | inl e ↦ rw e (record { plain = λ n. cc; over = λ n. cc })
        | inr e ↦
            let later =
              ask-HandsOver rest side1 (with_flag1 flag res) (answer s side req).1 o.1
                (ap is_some (get_err-with_flag1 flag res) ∙ e)
                (ap (λ g. g == hdp_open1) (get_flag1-with_flag1 flag res) ∙ o.0) in
            rw e (record { plain = λ n. (clean, f, later.plain n); over = later.over })
      ]

  runs-over :
      (r : Result S)
      → HandsOver r
      → is_some r.err ≡ false
      → {T : Type 0} (handle : T → HdpEvent → T) (t : T)
      → (run handle (to_side 0 (r.asked ++ r.opened)) t
          ≡ (handed_over, handled handle (to_side 0 r.asked) t))
        × (run handle (to_side 1 (r.asked ++ r.opened)) t
            ≡ (handed_over, handled handle (to_side 1 r.asked) t))
  runs-over r h n handle t = (
    run-Plain handle 0 r.asked r.opened t (h.plain n)
        ∙ (h.over n handle (handled handle (to_side 0 r.asked) t)).0,
    run-Plain handle 1 r.asked r.opened t (h.plain n)
        ∙ (h.over n handle (handled handle (to_side 1 r.asked) t)).1,
  )

  -- Dial of an address, or onAccept.
  abbrev pub result_of : Call → S → Result S
  result_of (dials a) s = dial answer (inr a) s
  result_of accepts s = on_accept answer s

  result_of-HandsOver : (c : Call) (s : S) → HandsOver (result_of c s)
  unfolding dial on_accept
  result_of-HandsOver (dials a) s =
      ask-HandsOver ((0, hdp_connect_ack) ∷ (1, hdp_accept_ack) ∷ (0, hdp_connected) ∷ []) 1 _ s
        (refl, (refl, (refl, tt))) (first_clean a) (ap (λ g. g == hdp_open1) (first_flag a))
  result_of-HandsOver accepts s =
      ask-HandsOver ((1, hdp_connect_ack) ∷ (0, hdp_accept_ack) ∷ (1, hdp_connected) ∷ []) 0 _ s
        (refl, (refl, (refl, tt))) accept_clean
        (ap (λ g. g == hdp_open1) (get_flag1-with_flag1 hdp_accept []))

  -- When a call of Dial, or one of onAccept, returns a connection, whatever the goroutines answer,
  -- the loop of its reader and that of its writer each handle exactly the requests that the call put
  -- to their side, in the order in which they were asked, and then end by handing the connection
  -- over.
  pub dial_hands_over :
      (c : Call) (s : S) {T : Type 0} (handle : T → HdpEvent → T) (t : T)
      → is_some (result_of c s).err ≡ false
      → (run handle (to_side 0 ((result_of c s).asked ++ (result_of c s).opened)) t
          ≡ (handed_over, handled handle (to_side 0 (result_of c s).asked) t))
        × (run handle (to_side 1 ((result_of c s).asked ++ (result_of c s).opened)) t
            ≡ (handed_over, handled handle (to_side 1 (result_of c s).asked) t))
  dial_hands_over c s handle t n = runs-over (result_of c s) (result_of-HandsOver c s) n handle t
