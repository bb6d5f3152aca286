-- ===== src/EventMap/Build/Refines.antt =====
-- dtype/dtype.go: every call on an event performs its changes, and any sequence of calls reads as a
-- function from keys to values changed in turn.
use aionet.Common.{
  ◌≡◌, refl, ap, sym, ◌∙◌, List, [], ◌∷◌, ◌++◌, Option, none, some, inl, inr, ◌&&◌, Bool-cases,
  Text, get_key, set_key, delete_key, get_key-set_key, get_key-delete_key, Bool, true, false, not,
}
use mathlib.Core.Path.{fun_ext}
use aionet.EventMap.{
  Value, nil, integer, string, err, chan, multi_ch, HdpEvent, value, int, activity, state1, state2,
}
use aionet.EventMap.Key
use aionet.EventMap.Build
use aionet.EventMap.Build.{note, note_status, is_data_mark, more, merge_keys, keys_of, keep_error}
use aionet.EventMap.Build.Pairs.{pairs, keys_are_strings, set_all, outcome_of, add_pairs_lem}
use aionet.EventMap.Build.Changes.{
  Call, set, add, with_args, add_ch, delete, merge, withc, withf, call, run, Change, update, apply,
  noted, stored, added, is_malformed, error_kept, deleted, merged, statuses, changes,
  changes_of_all,
}

-- A change made on the map itself.
abbrev change : Change → HdpEvent → HdpEvent
change (k, none) r = delete_key k r
change (k, some v) r = set_key k v r

abbrev perform : List Change → HdpEvent → HdpEvent
perform [] r = r
perform (c ∷ cs) r = perform cs (change c r)

abbrev read : HdpEvent → Text → Option Value
read r k = get_key k r

perform-append :
    (cs ds : List Change) (r : HdpEvent) → perform (cs ++ ds) r ≡ perform ds (perform cs r)
perform-append [] ds r = refl
perform-append (c ∷ cs) ds r = perform-append cs ds (change c r)

read-change : (c : Change) (r : HdpEvent) → read (change c r) ≡ update c.0 c.1 (read r)
read-change (k, none) r = fun_ext λ j. get_key-delete_key k j r
read-change (k, some v) r = fun_ext λ j. get_key-set_key k j v r

read-perform : (cs : List Change) (r : HdpEvent) → read (perform cs r) ≡ apply cs (read r)
read-perform [] r = refl
read-perform (c ∷ cs) r = read-perform cs (change c r) ∙ ap (apply cs) (read-change c r)

note-noted : (v : Value) (r : HdpEvent) → note v r ≡ perform (noted v) r
unfolding note noted
note-noted nil r = refl
note-noted (integer activity n) r = refl
note-noted (integer state1 n) r = refl
note-noted (integer state2 n) r = refl
note-noted (err e) r = refl
note-noted (chan c) r = refl
note-noted (multi_ch cs) r = refl
note-noted v r = refl

stored-perform : (kvs : List (Text × Value)) (r : HdpEvent) → set_all kvs r ≡ perform (stored kvs) r
stored-perform [] r = refl
stored-perform ((k, v) ∷ kvs) r = stored-perform kvs (set_key k v r)

not-not : (b : Bool) → not (not b) ≡ b
not-not true = refl
not-not false = refl

add_lem :
    (args : List Value) (r : HdpEvent)
    → Build.add args r ≡ (perform (added args) r, outcome_of (not (is_malformed args)))
unfolding Build.add
add_lem [] r = refl
add_lem (a ∷ args) r = elim (Bool-cases (is_data_mark a && more args)) [
  | inl e ↦
      rw (e, add_pairs_lem args r, stored-perform (pairs args) r)
        (ap (λ b. (perform (stored (pairs args)) r, outcome_of b))
          (sym (not-not (keys_are_strings args))))
  | inr e ↦
      rw
        (
          e,
          note-noted a r,
          add_lem args (perform (noted a) r),
          perform-append (noted a) (added args) r,
        )
        refl
]

merge_keys-perform : (ks : List Text) (x r : HdpEvent) → merge_keys ks x r ≡ perform (merged ks x) r
unfolding merge_keys
merge_keys-perform [] x r = refl
merge_keys-perform (k ∷ ks) x r = merge_keys-perform ks x (set_key k (value k x) r)

delete-perform : (ks : List Text) (r : HdpEvent) → Build.delete ks r ≡ perform (deleted ks) r
unfolding Build.delete
delete-perform [] r = refl
delete-perform (k ∷ ks) r = delete-perform ks (delete_key k r)

note_status-perform :
    (args : List Value) (r : HdpEvent) → note_status args r ≡ perform (statuses args) r
unfolding note_status
note_status-perform [] r = refl
note_status-perform (string s ∷ args) r = note_status-perform args (set_key Key.status (string s) r)
note_status-perform (err e ∷ args) r = note_status-perform args (set_key Key.error (err e) r)
note_status-perform (arg ∷ args) r = note_status-perform args r

keep_error-perform :
    (args : List Value) (r : HdpEvent)
    → keep_error (Build.add args r)
      ≡ perform (error_kept (is_malformed args)) (perform (added args) r)
unfolding keep_error
keep_error-perform args r = elim (Bool-cases (is_malformed args)) [
  | inl e ↦ rw (add_lem args r, e) refl
  | inr e ↦ rw (add_lem args r, e) refl
]

call-perform : (c : Call) (r : HdpEvent) → call c r ≡ perform (changes c) r
unfolding call changes Build.with_args Build.add_ch Build.merge Build.withc Build.withf
call-perform (set k v) r = refl
call-perform (add args) r = ap (λ p. p.0) (add_lem args r)
call-perform (with_args args) r =
    keep_error-perform args r ∙ sym (perform-append (added args) (error_kept (is_malformed args)) r)
call-perform (add_ch args ch) r =
    ap (set_key Key.result_ch (chan ch)) (keep_error-perform args r)
    ∙ sym (
        perform-append (error_kept (is_malformed args)) ((Key.result_ch, some (chan ch)) ∷ [])
          (perform (added args) r))
    ∙ sym (
        perform-append (added args)
          (error_kept (is_malformed args) ++ ((Key.result_ch, some (chan ch)) ∷ [])) r)
call-perform (delete keys) r = delete-perform keys r
call-perform (merge x none) r = merge_keys-perform (keys_of x) x r
call-perform (merge x (some keys)) r = merge_keys-perform keys x r
call-perform (withc code args) r = note_status-perform args (set_key Key.code (integer int code) r)
call-perform (withf code failure text) r = elim (Bool-cases (Build.is_failure code)) [
  | inl e ↦ rw e refl
  | inr e ↦ rw e refl
]

run-perform : (cs : List Call) (r : HdpEvent) → run cs r ≡ perform (changes_of_all cs) r
unfolding run
run-perform [] r = refl
run-perform (c ∷ cs) r =
    ap (run cs) (call-perform c r)
    ∙ run-perform cs (perform (changes c) r)
    ∙ sym (perform-append (changes c) (changes_of_all cs) r)

-- After any sequence of calls that fill an event (Set, Add, With, AddCh, Delete, Merge, Withc,
-- Withf), from any event, looking a key up gives what the function of the abstract view gives at
-- that key, which is the event's at the start with the changes of the calls made in turn. The
-- changes of a call are named by its arguments alone, so that no call reads its event, and no key
-- but those that the arguments name is touched.
pub run_refines :
    (cs : List Call) (r : HdpEvent) (k : Text)
    → get_key k (run cs r) ≡ apply (changes_of_all cs) (λ j. get_key j r) k
run_refines cs r k =
    ap (get_key k) (run-perform cs r) ∙ ap (λ f. f k) (read-perform (changes_of_all cs) r)
