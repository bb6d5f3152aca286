-- ===== src/EventMap/Tests.antt =====
-- dtype/dtype.go, dtype/dtype1.go: the theorems at single events.
use aionet.Common.{
  ℕ, ◌≡◌, refl, true, List, [], ◌∷◌, none, some, ascii, Text, errno, get_key, ret, if◌then◌else◌,
  arith, inr,
}
use aionet.EventMap.{Value, nil, integer, string, bytes, int, state1, state2, HdpEvent, err}
use aionet.EventMap.Key
use aionet.EventMap.Build
use aionet.EventMap.Build.{add_pairs, withc}
use aionet.EventMap.Build.Pairs.{set_all}
use aionet.EventMap.Build.Changes.{Call, run, apply, changes_of_all}
use aionet.EventMap.Build.Refines.{run_refines}
use aionet.EventMap.Channels.{event, respond, async, sync, send_event1, get, query_of}
use aionet.EventMap.Channels.Replies.{answers, reply_arrives}
use aionet.EventMap.Channels.Release.{SignalsOnce, released_once}
use aionet.EventMap.Reads.{get_ch}
use aionet.EventMap.Codec
use aionet.EventMap.Codec.Sends
use aionet.EventMap.Codec.{Kind, number, Fields, Library, encode, type_suffix, has_suffix}
use aionet.EventMap.Codec.Decode.{decode, before}
use aionet.EventMap.Codec.Names.{IsName}
use aionet.EventMap.Codec.Sends.{fields_of}
use aionet.EventMap.Codec.Trips.{encode-decode}

abbrev key_a : Text
key_a = ascii "a"

abbrev some_args : List Value
some_args = string key_a ∷ integer int 7 ∷ integer int 8 ∷ nil ∷ []

abbrev some_calls : List Call
some_calls =
    Call.add (integer state1 5 ∷ string (ascii ":data") ∷ string key_a ∷ nil ∷ [])
    ∷ Call.delete (key_a ∷ [])
    ∷ Call.withc 200 (err (errno 11) ∷ [])
    ∷ []

run_refines_example :
    get_key (ascii "flag1") (run some_calls [])
    ≡ apply (changes_of_all some_calls) (λ j. get_key j []) (ascii "flag1")
run_refines_example = run_refines some_calls [] (ascii "flag1")

abbrev flagged : HdpEvent
flagged = (ascii "flag1", integer state1 3) ∷ (ascii "flag2", integer state2 3) ∷ []

reply_arrives_example :
    (respond (Build.add_ch some_args 4 [])
      ≡ (Build.add_ch some_args 4 [], event 4 (Build.add_ch some_args 4 []) ∷ []))
    × (answers (get (key_a ∷ []) 4 9)
        ≡ (event 4 (query_of (key_a ∷ []) (Build.add_ch [] 4 [])) ∷ []) ∷ [])
unfolding Key.result_ch
reply_arrives_example = reply_arrives some_args [] (key_a ∷ []) 4 9 (omega arith) refl

released_once_example :
    SignalsOnce 6 (async (send_event1 (1 ∷ 2 ∷ []) 1 6 flagged).0)
    × SignalsOnce 6 (sync 7 (send_event1 (1 ∷ 2 ∷ []) 1 6 flagged).0)
    × (get_ch none (sync 7 (send_event1 (1 ∷ 2 ∷ []) 1 6 flagged).0).0 ≡ 7)
released_once_example = released_once (1 ∷ 2 ∷ []) 1 6 7 flagged (omega arith)

-- One document, by its number, for one struct; base64 writes bytes as they are.
abbrev library : Fields → Library
library fs = record {
  marshal = λ x. some (1 ∷ []);
  unmarshal = λ b. some fs;
  new_struct = λ a. some a;
  new_list = λ a. some a;
  as_map = λ a. a;
  as_slice = λ a. a;
  bool_wrapper = λ b. if b then 1 else 0;
  to_base64 = λ b. b;
  from_base64 = λ b. some b;
  is_valid_utf8 = λ s. true;
  to_float32 = λ x. x;
  out_of_range = λ t x. 0;
}

key_a-IsName : IsName key_a
unfolding before has_suffix type_suffix
key_a-IsName = record { first_part = refl; no_suffix = refl }

abbrev sendable : HdpEvent
sendable = (key_a, bytes (1 ∷ 2 ∷ [])) ∷ []

abbrev sender : Library
sender = library (fields_of (library []) sendable)

abbrev one_document : List ℕ
one_document = 1 ∷ []

encode-decode_example :
    (encode sender sendable ≡ ret (inr one_document))
    × (decode sender one_document flagged ≡ ret (set_all sendable flagged, none))
unfolding Sends.kind_of Sends.type_of Codec.encode_value
encode-decode_example =
    encode-decode sender sendable flagged one_document (key_a-IsName, refl, refl, tt) refl refl
