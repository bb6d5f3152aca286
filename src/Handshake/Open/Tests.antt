-- ===== src/Handshake/Open/Tests.antt =====
-- dialer.go and listener.go: Dial and onAccept with goroutines that answer each request with it,
-- and count them.
use aionet.Common.{is_some, false, ◌++◌, ℕ, suc, ◌≡◌, refl, [], ◌∷◌, some, inr, errno}
use aionet.EventMap.{HdpEvent, value}
use aionet.EventMap.Key
use aionet.EventMap.Build
use aionet.EventMap.Reads.{get_err}
use aionet.Dtype.{hdp_accept, hdp_connect, hdp_connect_ack, hdp_accept_ack, hdp_connected}
use aionet.Handshake.Open.{window_size_key, raddr_key, timed_out, answered, dial, on_accept, accept}
use aionet.Handshake.Open.Run.{run, to_side, handled, handed_over, dials, accepts, dial_hands_over}
use aionet.Handshake.Open.Order.{InOrder, dial-InOrder}

abbrev echo : ℕ → ℕ → HdpEvent → HdpEvent × ℕ
echo s side req = (req, suc s)

dial-InOrder_example :
    InOrder echo 0
      ((1, hdp_connect) ∷ (0, hdp_connect_ack) ∷ (1, hdp_accept_ack) ∷ (0, hdp_connected) ∷ [])
      (dial echo (inr 9) 0)
    × InOrder echo 3
        ((0, hdp_accept) ∷ (1, hdp_connect_ack) ∷ (0, hdp_accept_ack) ∷ (1, hdp_connected) ∷ [])
        (on_accept echo 3)
dial-InOrder_example = dial-InOrder echo 9 0 3

-- Accept asks again after a timeout and after EINTR, and returns any other error.
accept_asks_again :
    accept echo (timed_out ∷ answered (some (errno 4)) ∷ answered (some (errno 9)) ∷ []) 0
    ≡ some (record { err = some (errno 9); asked = []; opened = []; after = 0 })
unfolding accept
accept_asks_again = refl

no_error : is_some (dial echo (inr 9) 0).err ≡ false
unfolding dial get_err value Key.data_mark Build.as_string Key.flag1 window_size_key raddr_key
    Key.error
no_error = refl

no_error_accepted : is_some (on_accept echo 0).err ≡ false
unfolding on_accept get_err value Key.flag1 Key.error
no_error_accepted = refl

-- The writer's loop, and the reader's, count the requests that they handle.
abbrev count : ℕ → HdpEvent → ℕ
count t ev = suc t

dial_hands_over_example :
    (run count (to_side 0 ((dial echo (inr 9) 0).asked ++ (dial echo (inr 9) 0).opened)) 0
      ≡ (handed_over, handled count (to_side 0 (dial echo (inr 9) 0).asked) 0))
    × (run count (to_side 1 ((dial echo (inr 9) 0).asked ++ (dial echo (inr 9) 0).opened)) 0
        ≡ (handed_over, handled count (to_side 1 (dial echo (inr 9) 0).asked) 0))
dial_hands_over_example = dial_hands_over echo (dials 9) 0 count 0 no_error

accepted_hands_over :
    (run count (to_side 0 ((on_accept echo 0).asked ++ (on_accept echo 0).opened)) 0
      ≡ (handed_over, handled count (to_side 0 (on_accept echo 0).asked) 0))
    × (run count (to_side 1 ((on_accept echo 0).asked ++ (on_accept echo 0).opened)) 0
        ≡ (handed_over, handled count (to_side 1 (on_accept echo 0).asked) 0))
accepted_hands_over = dial_hands_over echo accepts 0 count 0 no_error_accepted
