-- ===== src/EventMap/Channels/Replies.antt =====
-- dtype/dtype.go and dtype/dtype1.go: where a reply goes, and when a request is let go.
use aionet.Common.{
  ℕ, ◌≡◌, ◌≢◌, ◌∙◌, ap, refl, Bool, true, false, List, [], ◌∷◌, none, some, arith, if◌then◌else◌,
  ==_ne, Text, same_text, same_text_refl, set_key, get_key-set_key, get_key-delete_key,
}
use aionet.EventMap.{Value, nil, bool, chan, HdpEvent, value}
use aionet.EventMap.Key
use aionet.EventMap.Build.{add, add_ch, delete, keep_error}
use aionet.EventMap.Reads.{get_ch, channel_of}
use aionet.EventMap.Channels.{Sent, event, ready, respond, get, query_of, nil_keys}

get_ch-set_chan : (ch : ℕ) (r : HdpEvent) → get_ch none (set_key Key.result_ch (chan ch) r) ≡ ch
unfolding get_ch channel_of value
get_ch-set_chan ch r =
    rw (get_key-set_key Key.result_ch Key.result_ch (chan ch) r, same_text_refl Key.result_ch) refl

get_ch-set_other :
    (k : Text) (v : Value) (r : HdpEvent)
    → same_text k Key.result_ch ≡ false
    → get_ch none (set_key k v r) ≡ get_ch none r
unfolding get_ch channel_of value
get_ch-set_other k v r h = rw (get_key-set_key k Key.result_ch v r, h) refl

get_ch-add_ch : (args : List Value) (ch : ℕ) (r : HdpEvent) → get_ch none (add_ch args ch r) ≡ ch
unfolding add_ch
get_ch-add_ch args ch r = get_ch-set_chan ch (keep_error (add args r))

respond-to :
    (ch : ℕ) (r : HdpEvent) → ch ≢ 0 → get_ch none r ≡ ch → respond r ≡ (r, event ch r ∷ [])
unfolding respond
respond-to ch r ne e = rw (e, ==_ne ch 0 ne) refl

-- Whether a list of keys has none that is "resultCh".
abbrev pub spares_result : List Text → Bool
spares_result [] = true
spares_result (k ∷ ks) = if same_text k Key.result_ch then false else spares_result ks

get_ch-nil_keys :
    (ks : List Text) (r : HdpEvent)
    → spares_result ks ≡ true
    → get_ch none (nil_keys ks r) ≡ get_ch none r
get_ch-nil_keys [] r h = refl
get_ch-nil_keys (k ∷ ks) r h =
    get_ch-nil_keys ks (set_key k nil r) (ground arith) ∙ get_ch-set_other k nil r (ground arith)

get_is_no_result : same_text Key.get Key.result_ch ≡ false
unfolding Key.get Key.result_ch
get_is_no_result = refl

get_all_is_no_result : same_text Key.get_all Key.result_ch ≡ false
unfolding Key.get_all Key.result_ch
get_all_is_no_result = refl

get_ch-query_of :
    (ks : List Text) (r : HdpEvent)
    → spares_result ks ≡ true
    → get_ch none (query_of ks r) ≡ get_ch none r
get_ch-query_of [] r h = get_ch-set_other Key.get_all (bool true) r get_all_is_no_result
get_ch-query_of (k ∷ ks) r h =
    get_ch-nil_keys (k ∷ ks) (set_key Key.get (bool true) r) h
    ∙ get_ch-set_other Key.get (bool true) r get_is_no_result

-- What Respond sends for an event that was sent.
abbrev pub answers : List Sent → List (List Sent)
answers [] = []
answers (event c r ∷ sent) = (respond r).1 ∷ answers sent
answers (ready c ∷ sent) = answers sent

-- The channel that AddCh returns gets the event when Respond is called on it, whatever the
-- arguments of AddCh and the event before them; and the channel that Get returns gets the request
-- that Get sent when its receiver responds, for any keys other than "resultCh".
pub reply_arrives :
    (args : List Value) (r : HdpEvent) (keys : List Text) (ch to : ℕ)
    → ch ≢ 0
    → spares_result keys ≡ true
    → (respond (add_ch args ch r) ≡ (add_ch args ch r, event ch (add_ch args ch r) ∷ []))
      × (answers (get keys ch to) ≡ (event ch (query_of keys (add_ch [] ch [])) ∷ []) ∷ [])
unfolding get
reply_arrives args r keys ch to ne h = (
  respond-to ch (add_ch args ch r) ne (get_ch-add_ch args ch r),
  ap (λ p. p.1 ∷ [])
      (respond-to ch (query_of keys (add_ch [] ch [])) ne
        (get_ch-query_of keys (add_ch [] ch []) h ∙ get_ch-add_ch [] ch [])),
)

alt_is_no_result : same_text Key.alt_ch Key.result_ch ≡ false
unfolding Key.alt_ch Key.result_ch
alt_is_no_result = refl

get_ch-delete_alt : (r : HdpEvent) → get_ch none (delete (Key.alt_ch ∷ []) r) ≡ get_ch none r
unfolding get_ch channel_of value delete
get_ch-delete_alt r = rw (get_key-delete_key Key.alt_ch Key.result_ch r, alt_is_no_result) refl

alt_ch_deleted : (r : HdpEvent) → get_ch (some Key.alt_ch) (delete (Key.alt_ch ∷ []) r) ≡ 0
unfolding get_ch channel_of value delete
alt_ch_deleted r = rw (get_key-delete_key Key.alt_ch Key.alt_ch r, same_text_refl Key.alt_ch) refl

-- On an event without a result channel whose alternative channel is alt, the first Respond sends
-- the event, without the alternative channel, on alt, and a second Respond on what it leaves sends
-- nothing.
pub alternative_once :
    (alt : ℕ) (r : HdpEvent)
    → alt ≢ 0
    → get_ch none r ≡ 0
    → get_ch (some Key.alt_ch) r ≡ alt
    → (respond r ≡ (delete (Key.alt_ch ∷ []) r, event alt (delete (Key.alt_ch ∷ []) r) ∷ []))
      × ((respond (respond r).0).1 ≡ [])
unfolding respond
alternative_once alt r ne h a =
    rw (h, a, ==_ne alt 0 ne, get_ch-delete_alt r, h, alt_ch_deleted r) (refl, refl)
