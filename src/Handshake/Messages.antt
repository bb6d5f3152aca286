-- ===== src/Handshake/Messages.antt =====
-- transport.go: what each side makes of the header that the other sends it.
use aionet.Common.{
  ℕ, ◌/◌, ◌%◌, ◌<◌, ◌≡◌, ap, ◌∙◌, ◌==◌, ==_refl, true, if◌then◌else◌, List, [], ◌∷◌, none, some,
  hdp, arith,
}
use aionet.Wire.{verify_checksum1}
use aionet.Wire.RoundTrip.{join16}
use aionet.Handshake.{
  Endpoint, header, opened, checksummed, connect_hdp, acknow_connect, acknow_accept, acknow_open,
  on_accept, on_connect_acknow, on_accept_acknow, on_open_acknow, is_stranger,
}

pub record IsEndpoint (e : Endpoint) : Type 0 where
  pub own : e.ref0 < 65536
  pub peer : e.ref1 < 65536
  pub window : e.write_window < 65536

module _ (crc16 : List ℕ → ℕ) (bounded : (b : List ℕ) → crc16 b < 65536) where
  verified :
      (a0 a1 a2 a3 a10 a12 a13 : ℕ)
      → let u =
          a0 ∷ a1 ∷ a2 ∷ a3 ∷ 0 ∷ 0 ∷ 0 ∷ 0 ∷ 0 ∷ 0 ∷ a10 ∷ 0 ∷ a12 ∷ a13 ∷ 0 ∷ 0 ∷ 0 ∷ 0 ∷ [] in
        verify_checksum1 crc16 (checksummed crc16 u) ≡ (true, u)
  unfolding verify_checksum1
  verified a0 a1 a2 a3 a10 a12 a13 =
      let u =
        a0 ∷ a1 ∷ a2 ∷ a3 ∷ 0 ∷ 0 ∷ 0 ∷ 0 ∷ 0 ∷ 0 ∷ a10 ∷ 0 ∷ a12 ∷ a13 ∷ 0 ∷ 0 ∷ 0 ∷ 0 ∷ [] in
      ap (λ x. (x == crc16 u, u)) (join16 (crc16 u) (bounded u))
      ∙ ap (λ x. (x, u)) (==_refl (crc16 u))

  pub on_accept-connect :
      (l : Endpoint)
      → on_accept crc16 l (header (connect_hdp crc16)) opened
        ≡ (record l { read_window = 16; write_window = 16 }, none)
  unfolding on_accept connect_hdp
  on_accept-connect l = ground (arith, verified 0 0 0 0 5 0 0)

  pub on_connect_acknow-acknow :
      (d l : Endpoint)
      → IsEndpoint l
      → on_connect_acknow crc16 d (header (acknow_connect crc16 l)) none
        ≡ (record d { ref1 = l.ref0; read_window = l.write_window }, none)
  unfolding on_connect_acknow acknow_connect
  on_connect_acknow-acknow d l v = ground (
    arith,
    verified (l.ref0 % 256) (l.ref0 / 256 % 256) 0 0 6 (l.write_window % 256)
        (l.write_window / 256 % 256),
    join16 l.ref0 v.own,
    join16 l.write_window v.window,
  )

  pub on_accept_acknow-accept :
      (l d : Endpoint)
      → IsEndpoint d
      → on_accept_acknow crc16 l (header (acknow_accept crc16 d)) ≡ (
          if is_stranger l d.ref1
          then (record l { ref1 = d.ref0 }, some (hdp 1))
          else (record l { ref1 = d.ref0; read_window = d.write_window }, none))
  unfolding on_accept_acknow acknow_accept
  on_accept_acknow-accept l d v = ground (
    arith,
    verified (d.ref1 % 256) (d.ref1 / 256 % 256) (d.ref0 % 256) (d.ref0 / 256 % 256) 2
        (d.write_window % 256) (d.write_window / 256 % 256),
    join16 d.ref0 v.own,
    join16 d.ref1 v.peer,
    join16 d.write_window v.window,
  )

  pub on_open_acknow-open :
      (d l : Endpoint)
      → IsEndpoint l
      → on_open_acknow crc16 d (header (acknow_open crc16 l))
        ≡ (if is_stranger d l.ref1 then (d, some (hdp 1)) else (d, none))
  unfolding on_open_acknow acknow_open
  on_open_acknow-open d l v =
      ground (arith, verified (l.ref1 % 256) (l.ref1 / 256 % 256) 0 0 7 0 0, join16 l.ref1 v.peer)
