-- ===== src/Handshake/Agreement.antt =====
-- transport.go: the handshake of a dialer with a listener, and with a stranger.
use aionet.Common.{
  ℕ, ◌<◌, ◌≤◌, ◌≡◌, ◌≢◌, sym, ap, ◌∙◌, inr, false, List, Option, none, some, Error, hdp, arith,
}
use aionet.Wire.{parse_header}
use aionet.Wire.RoundTrip.{Fields, InWidth, written, Found, header_round_trip}
use aionet.Dtype.{hdp_accept, hdp_connect, hdp_connect_ack, hdp_accept_ack, hdp_connected}
use aionet.Handshake.{
  message, read_handle, write_handle, Endpoint, get_ref_num, header, acknow_accept, acknow_open,
  on_accept_acknow, on_open_acknow, is_stranger,
}
use aionet.Handshake.Messages.{
  IsEndpoint, on_accept-connect, on_connect_acknow-acknow, on_accept_acknow-accept,
  on_open_acknow-open,
}

-- getRefNum gives numbers from 1000 to 65535, so never 0, which stands for no session.
pub get_ref_num_range : (t : ℕ) → (1000 ≤ get_ref_num t) × (get_ref_num t < 65536)
unfolding get_ref_num
get_ref_num_range t = ground arith

-- The four messages between a dialer `d` and a listener `l`, in the order in which Dial and
-- onAccept send them, when no system call fails: the two sides after them, and the four results.
pub record Exchange : Type 0 where
  pub dialer : Endpoint
  pub listener : Endpoint
  pub accepted : Option Error
  pub connect_acknowledged : Option Error
  pub accept_acknowledged : Option Error
  pub open_acknowledged : Option Error

abbrev pub agreed : (d l : Endpoint) → Exchange
agreed d l = record {
  dialer = record d { ref1 = l.ref0; read_window = 16 };
  listener = record l { ref1 = d.ref0; read_window = d.write_window; write_window = 16 };
  accepted = none;
  connect_acknowledged = none;
  accept_acknowledged = none;
  open_acknowledged = none;
}

known_number : (e : Endpoint) → is_stranger e e.ref0 ≡ false
known_number e = ground arith

module _ (crc16 : List ℕ → ℕ) where
  unfoldable pub exchange : (d l : Endpoint) → Exchange
  exchange d l =
      let a = message crc16 hdp_connect d hdp_accept l in
      let b = message crc16 hdp_connect_ack (a.0) hdp_connect_ack d in
      let c = message crc16 hdp_accept_ack (b.0) hdp_accept_ack (a.0) in
      let o = message crc16 hdp_connected (c.0) hdp_connected (b.0) in
      record {
        dialer = o.0;
        listener = c.0;
        accepted = a.1;
        connect_acknowledged = b.1;
        accept_acknowledged = c.1;
        open_acknowledged = o.1;
      }

module _ (crc16 : List ℕ → ℕ) (bounded : (b : List ℕ) → crc16 b < 65536) where
  first_message :
      (d l : Endpoint)
      → message crc16 hdp_connect d hdp_accept l
        ≡ (record l { read_window = 16; write_window = 16 }, none)
  unfolding message read_handle write_handle
  first_message d l = on_accept-connect crc16 bounded l

  second_message :
      (l d : Endpoint)
      → IsEndpoint l
      → message crc16 hdp_connect_ack l hdp_connect_ack d
        ≡ (record d { ref1 = l.ref0; read_window = l.write_window }, none)
  unfolding message read_handle write_handle
  second_message l d v = on_connect_acknow-acknow crc16 bounded d l v

  third_message :
      (d l : Endpoint)
      → IsEndpoint d
      → is_stranger l d.ref1 ≡ false
      → message crc16 hdp_accept_ack d hdp_accept_ack l
        ≡ (record l { ref1 = d.ref0; read_window = d.write_window }, none)
  unfolding message read_handle write_handle
  third_message d l v h = ground (arith, on_accept_acknow-accept crc16 bounded l d v, h)

  fourth_message :
      (l d : Endpoint)
      → IsEndpoint l
      → is_stranger d l.ref1 ≡ false
      → message crc16 hdp_connected l hdp_connected d ≡ (d, none)
  unfolding message read_handle write_handle
  fourth_message l d v h = ground (arith, on_open_acknow-open crc16 bounded d l v, h)

  exchange-agreed : (d l : Endpoint) → IsEndpoint d → IsEndpoint l → exchange crc16 d l ≡ agreed d l
  unfolding exchange
  exchange-agreed d l v w =
      let l1 : Endpoint = record l { read_window = 16; write_window = 16 } in
      let d1 : Endpoint = record d { ref1 = l.ref0; read_window = 16 } in
      let l2 : Endpoint = record l1 { ref1 = d.ref0; read_window = d.write_window } in
      ground (
        arith,
        first_message d l,
        second_message l1 d (record { own = w.own; peer = w.peer; window = omega arith }),
        third_message d1 l1 (record { own = v.own; peer = w.own; window = v.window })
            (known_number l1),
        fourth_message l2 d1 (record { own = w.own; peer = v.own; window = omega arith })
            (known_number d1),
      )

  -- The handshake of two sides with numbers and windows of 16 bits, in which no system call fails,
  -- succeeds at each of its four messages. After it each side holds the other's number and has kept
  -- its own, the windows in the readers are those of the other's writer, and the windows in the
  -- writers are 16 at the listener and unchanged at the dialer: what was read does not reach the
  -- writer, whose window the ring buffer gets.
  pub handshake_agrees :
      (d l : Endpoint)
      → IsEndpoint d
      → IsEndpoint l
      → let x = exchange crc16 d l in
        (x.accepted ≡ none)
        × (x.connect_acknowledged ≡ none)
        × (x.accept_acknowledged ≡ none)
        × (x.open_acknowledged ≡ none)
        × (x.dialer ≡ record {
          ref0 = d.ref0;
          ref1 = l.ref0;
          read_window = 16;
          write_window = d.write_window;
        })
        × (x.listener ≡ record {
          ref0 = l.ref0;
          ref1 = d.ref0;
          read_window = d.write_window;
          write_window = 16;
        })
  handshake_agrees d l v w =
      let e = exchange-agreed d l v w in
      (
        ap (λ x. x.accepted) e,
        ap (λ x. x.connect_acknowledged) e,
        ap (λ x. x.accept_acknowledged) e,
        ap (λ x. x.open_acknowledged) e,
        ap (λ x. x.dialer) e,
        ap (λ x. x.listener) e,
      )

  -- A side with a number of its own refuses both acknowledgements from a peer that answers to
  -- another number. The refused acceptance has replaced the number that it holds of its peer; the
  -- refused opening changes nothing.
  pub stranger_refused :
      (e s : Endpoint)
      → IsEndpoint s
      → e.ref0 ≢ 0
      → s.ref1 ≢ e.ref0
      → (on_accept_acknow crc16 e (header (acknow_accept crc16 s))
          ≡ (record e { ref1 = s.ref0 }, some (hdp 1)))
        × (on_open_acknow crc16 e (header (acknow_open crc16 s)) ≡ (e, some (hdp 1)))
  stranger_refused e s v n k = (
    ground (arith, on_accept_acknow-accept crc16 bounded e s v, n, k),
    ground (arith, on_open_acknow-open crc16 bounded e s v, n, k),
  )

  -- After the handshake the reader of the listener finds the fields of every header that the writer
  -- of the dialer makes with its number for the listener, and the other way round.
  pub handshake_opens :
      (d l : Endpoint) (f g : Fields)
      → IsEndpoint d
      → IsEndpoint l
      → InWidth f
      → InWidth g
      → f.ref_num ≡ (exchange crc16 d l).dialer.ref1
      → g.ref_num ≡ (exchange crc16 d l).listener.ref1
      → Found crc16 f (parse_header crc16 (exchange crc16 d l).listener.ref0 (written crc16 f))
        × Found crc16 g (parse_header crc16 (exchange crc16 d l).dialer.ref0 (written crc16 g))
  handshake_opens d l f g v w p q h k =
      let e = exchange-agreed d l v w in
      (
        header_round_trip crc16 f (exchange crc16 d l).listener.ref0 p bounded
            (inr (ap (λ x. x.listener.ref0) e ∙ sym (h ∙ ap (λ x. x.dialer.ref1) e))),
        header_round_trip crc16 g (exchange crc16 d l).dialer.ref0 q bounded
            (inr (ap (λ x. x.dialer.ref0) e ∙ sym (k ∙ ap (λ x. x.listener.ref1) e))),
      )
