-- ===== src/EventMap/Build/Changes.antt =====
-- dtype/dtype.go: the methods that fill an event against a function from keys to values, of which
-- each call is a list of changes that its arguments alone name.
use aionet.Common.{
  ℕ, Bool, false, ◌&&◌, not, List, [], ◌∷◌, ◌++◌, Option, none, some, if◌then◌else◌, Error, Text,
  set_key, same_text,
}
use aionet.EventMap.{
  Value, nil, integer, string, err, chan, multi_ch, int, activity, state1, state2, HdpEvent, value,
}
use aionet.EventMap.Key
use aionet.EventMap.Build
use aionet.EventMap.Build.{
  note, is_data_mark, more, keep_error, made, merge_keys, keys_of, note_status, is_failure,
  key_error,
}
use aionet.EventMap.Build.Pairs.{pairs, keys_are_strings}

-- A call on an event, with its arguments, and the channel that AddCh makes.
pub data Call : Type 0 where
  set : Text → Value → Call
  add with_args : List Value → Call
  add_ch : List Value → ℕ → Call
  delete : List Text → Call
  merge : HdpEvent → Option (List Text) → Call
  withc : ℕ → List Value → Call
  withf : ℕ → Error → Text → Call

-- What a call leaves in its receiver.
unfoldable pub call : Call → HdpEvent → HdpEvent
unfolding Build.add Build.with_args Build.add_ch Build.delete Build.merge Build.withc Build.withf
call (set k v) r = set_key k v r
call (add args) r = (Build.add args r).0
call (with_args args) r = Build.with_args args (some r)
call (add_ch args ch) r = Build.add_ch args ch r
call (delete keys) r = Build.delete keys r
call (merge x keys) r = Build.merge x keys r
call (withc code args) r = Build.withc code args (some r)
call (withf code failure text) r = Build.withf code failure text r

unfoldable pub run : List Call → HdpEvent → HdpEvent
unfolding call
run [] r = r
run (c ∷ cs) r = run cs (call c r)

-- A key with its new value, or with none where it is deleted.
abbrev pub Change : Type 0
Change = Text × Option Value

-- The abstract view: a function from keys to values, changed at one key, or at several in turn.
abbrev pub update : Text → Option Value → (Text → Option Value) → Text → Option Value
update k w f j = if same_text k j then w else f j

abbrev pub apply : List Change → (Text → Option Value) → Text → Option Value
apply [] f = f
apply ((k, w) ∷ cs) f = apply cs (update k w f)

-- The changes of one argument of `Add`, by its type.
unfoldable pub noted : Value → List Change
noted nil = (Key.error, some nil) ∷ []
noted (integer activity n) = (Key.activity, some (integer activity n)) ∷ []
noted (err e) = (Key.error, some (err e)) ∷ []
noted (chan c) = (Key.result_ch, some (chan c)) ∷ []
noted (multi_ch cs) = (Key.multi_ch, some (multi_ch cs)) ∷ []
noted (integer state1 n) = (Key.flag1, some (integer state1 n)) ∷ []
noted (integer state2 n) = (Key.flag2, some (integer state2 n)) ∷ []
noted v = []

abbrev pub stored : List (Text × Value) → List Change
stored [] = []
stored ((k, v) ∷ kvs) = (k, some v) ∷ stored kvs

abbrev pub added : List Value → List Change
added [] = []
added (a ∷ args) =
    if is_data_mark a && more args then stored (pairs args) else noted a ++ added args

-- Whether a key after ":data" is no string.
abbrev pub is_malformed : List Value → Bool
is_malformed [] = false
is_malformed (a ∷ args) =
    if is_data_mark a && more args then not (keys_are_strings args) else is_malformed args

abbrev pub error_kept : Bool → List Change
error_kept b = if b then (Key.error, some (err key_error)) ∷ [] else []

abbrev pub deleted : List Text → List Change
deleted [] = []
deleted (k ∷ ks) = (k, none) ∷ deleted ks

abbrev pub merged : List Text → HdpEvent → List Change
merged [] x = []
merged (k ∷ ks) x = (k, some (value k x)) ∷ merged ks x

abbrev pub statuses : List Value → List Change
statuses [] = []
statuses (string s ∷ args) = (Key.status, some (string s)) ∷ statuses args
statuses (err e ∷ args) = (Key.error, some (err e)) ∷ statuses args
statuses (arg ∷ args) = statuses args

unfoldable pub changes : Call → List Change
changes (set k v) = (k, some v) ∷ []
changes (add args) = added args
changes (with_args args) = added args ++ error_kept (is_malformed args)
changes (add_ch args ch) =
    added args ++ (error_kept (is_malformed args) ++ ((Key.result_ch, some (chan ch)) ∷ []))
changes (delete keys) = deleted keys
changes (merge x none) = merged (keys_of x) x
changes (merge x (some keys)) = merged keys x
changes (withc code args) = (Key.code, some (integer int code)) ∷ statuses args
changes (withf code failure text) =
    (Key.code, some (integer int code))
    ∷ ((if is_failure code then (Key.error, some (err failure)) else (Key.desc, some (string text)))
        ∷ [])

abbrev pub changes_of_all : List Call → List Change
changes_of_all [] = []
changes_of_all (c ∷ cs) = changes c ++ changes_of_all cs
