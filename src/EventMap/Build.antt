-- ===== src/EventMap/Build.antt =====
-- dtype/dtype.go, the methods that fill an event: add, Add, AddCh, Delete, HasAny, HasKeys, Merge,
-- New, With, Withc, Withf, and NewHdpEvent of dtype/base.go. A method returns the event that its
-- receiver is afterwards. A receiver that the code makes when it is nil is an Option; the others
-- write to a map that their callers made.
pub mod Pairs
pub mod Changes
pub mod Refines
use aionet.Common.{
  ℕ, suc, Bool, true, false, ◌&&◌, List, [], ◌∷◌, Option, none, some, ◌==◌, ltb, leb, ◌%◌,
  if◌then◌else◌, is_some, Error, errorf, Text, get_key, set_key, delete_key, same_text,
}
use aionet.EventMap.{
  Value, nil, integer, string, err, chan, multi_ch, int, activity, state1, state2, HdpEvent, value,
}
use aionet.EventMap.Key

-- `arg.(string)`.
unfoldable pub as_string : Value → Option Text
as_string (string s) = some s
as_string v = none

abbrev pub key_error : Error
key_error = errorf "key string, value any sequence format is required." []

-- The loop of `add` from argument `i` on, with `key` as the last key read.
unfoldable pub add_from : ℕ → Text → List Value → HdpEvent → HdpEvent × Option Error
add_from i key [] r = (r, none)
add_from i key (arg ∷ args) r =
    if i % 2 == 0
    then elim (as_string arg) [ none ↦ (r, some key_error) | some k ↦ add_from (suc i) k args r ]
    else add_from (suc i) key args (set_key key arg r)

-- `add`.
unfoldable pub add_pairs : List Value → HdpEvent → HdpEvent × Option Error
unfolding add_from
add_pairs args r = add_from 0 [] args r

-- The cases of `Add` that store an argument under the key of its type.
unfoldable pub note : Value → HdpEvent → HdpEvent
note nil r = set_key Key.error nil r
note (integer activity n) r = set_key Key.activity (integer activity n) r
note (err e) r = set_key Key.error (err e) r
note (chan c) r = set_key Key.result_ch (chan c) r
note (multi_ch cs) r = set_key Key.multi_ch (multi_ch cs) r
note (integer state1 n) r = set_key Key.flag1 (integer state1 n) r
note (integer state2 n) r = set_key Key.flag2 (integer state2 n) r
note v r = r

-- The argument is the string ":data".
unfoldable pub is_data_mark : Value → Bool
is_data_mark (string s) = same_text s Key.data_mark
is_data_mark v = false

abbrev pub more : List Value → Bool
more [] = false
more (x ∷ xs) = true

-- `Add`: what follows ":data", if anything does, are pairs of a key and a value.
unfoldable pub add : List Value → HdpEvent → HdpEvent × Option Error
unfolding add_pairs note is_data_mark
add [] r = (r, none)
add (arg ∷ args) r =
    if is_data_mark arg && more args then add_pairs args r else add args (note arg r)

-- `if err != nil { r["error"] = err }`.
unfoldable pub keep_error : HdpEvent × Option Error → HdpEvent
keep_error (r, none) = r
keep_error (r, some e) = set_key Key.error (err e) r

-- `AddCh`, with the channel that it makes and returns.
unfoldable pub add_ch : List Value → ℕ → HdpEvent → HdpEvent
unfolding add keep_error
add_ch args ch r = set_key Key.result_ch (chan ch) (keep_error (add args r))

abbrev pub made : Option HdpEvent → HdpEvent
made none = []
made (some r) = r

-- `With`.
unfoldable pub with_args : List Value → Option HdpEvent → HdpEvent
unfolding add keep_error
with_args args r = keep_error (add args (made r))

-- `New`, and `NewHdpEvent`.
unfoldable pub new_event : List Value → HdpEvent
unfolding with_args
new_event args = with_args args (some [])

-- `Delete`.
unfoldable pub delete : List Text → HdpEvent → HdpEvent
delete [] r = r
delete (key ∷ keys) r = delete keys (delete_key key r)

-- `HasAny`.
unfoldable pub has_any : List Text → HdpEvent → Bool
has_any [] r = false
has_any (key ∷ keys) r = if is_some (get_key key r) then true else has_any keys r

-- `HasKeys`.
unfoldable pub has_keys : List Text → HdpEvent → Bool
has_keys [] r = true
has_keys (key ∷ keys) r = if is_some (get_key key r) then has_keys keys r else false

-- `for key := range keys { r[key] = x[key] }`.
unfoldable pub merge_keys : List Text → HdpEvent → HdpEvent → HdpEvent
unfolding value
merge_keys [] x r = r
merge_keys (key ∷ keys) x r = merge_keys keys x (set_key key (value key x) r)

abbrev pub keys_of : HdpEvent → List Text
keys_of [] = []
keys_of ((k, v) ∷ x) = k ∷ keys_of x

-- `Merge`, where `none` is a nil list of keys.
unfoldable pub merge : HdpEvent → Option (List Text) → HdpEvent → HdpEvent
unfolding merge_keys
merge x none r = merge_keys (keys_of x) x r
merge x (some keys) r = merge_keys keys x r

-- The cases of `Withc`.
unfoldable pub note_status : List Value → HdpEvent → HdpEvent
note_status [] r = r
note_status (string s ∷ args) r = note_status args (set_key Key.status (string s) r)
note_status (err e ∷ args) r = note_status args (set_key Key.error (err e) r)
note_status (arg ∷ args) r = note_status args r

-- `Withc`.
unfoldable pub withc : ℕ → List Value → Option HdpEvent → HdpEvent
unfolding note_status
withc code args r = note_status args (set_key Key.code (integer int code) (made r))

-- `code >= 400` on an int's pattern.
abbrev pub is_failure : ℕ → Bool
is_failure code = leb 400 code && ltb code 9223372036854775808

-- `Withf`, with what Errorf or Sprintf make of its format and arguments.
unfoldable pub withf : ℕ → Error → Text → HdpEvent → HdpEvent
withf code failure text r =
    if is_failure code
    then set_key Key.error (err failure) (set_key Key.code (integer int code) r)
    else set_key Key.desc (string text) (set_key Key.code (integer int code) r)
