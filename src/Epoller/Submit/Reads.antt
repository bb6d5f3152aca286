-- ===== src/Epoller/Submit/Reads.antt =====
-- epoller/base.go, SubmitIoReq: the loop over the event against looking the keys up.
use Prim.Native.String.{String}
use aionet.Common.{
  ℕ, true, false, ◌≡◌, ◌∙◌, ap, sym, refl, arith, if◌then◌else◌, [], ◌∷◌, Option, none, some, Text,
  same_text, get_key, eq_of_same_text, Bool-cases, Option-cases, inl, inr,
}
use aionet.EventMap.{HdpEvent, Value, value, nil}
use aionet.Epoller.{ReqRef, zero_time}
use aionet.Epoller.Submit.{
  cid_key, fd_key, flags_key, mode_key, deadline_key, Views, int_or_zero, string_or_empty,
  time_or_zero, read_key, read_keys, no_ref,
}

-- No key comes twice.
abbrev pub IsMap : HdpEvent → Type 0
IsMap [] = Unit
IsMap ((k, v) ∷ r) = (get_key k r ≡ none) × IsMap r

same_text-apart :
    (k a b : Text) → same_text k a ≡ true → same_text a b ≡ false → same_text k b ≡ false
same_text-apart k a b e d = rw (eq_of_same_text k a e) d

-- What a key sets, none of the keys tested before it being the same.
abbrev or_else {ℓ} : {A : Type ℓ} → A → (Value → A) → Option Value → A
or_else d f none = d
or_else d f (some v) = f v

same_fields :
    (r : ReqRef) {cid : String} {fd flags mode deadline : ℕ}
    → r.cid ≡ cid
    → r.fd ≡ fd
    → r.flags ≡ flags
    → r.mode ≡ mode
    → r.deadline ≡ deadline
    → r ≡ record { cid = cid; fd = fd; flags = flags; mode = mode; deadline = deadline }
same_fields r a b c d e = cc

module _ (views : Views) where
  read_keys-field :
      {A : Type 0} (field : ReqRef → A) (key : Text) (f : Value → A)
      → ((k : Text) (v : Value) (ref : ReqRef)
          → field (read_key views k v ref) ≡ (if same_text k key then f v else field ref))
      → (ev : HdpEvent) (ref : ReqRef) → IsMap ev
      → field (read_keys views ev ref) ≡ or_else (field ref) f (get_key key ev)
  unfolding read_keys
  read_keys-field field key f h [] ref m = refl
  read_keys-field field key f h ((k, v) ∷ ev) ref m =
      let step = read_keys-field field key f h ev (read_key views k v ref) m.1 in
      elim (Bool-cases (same_text k key)) [
        | inl e ↦
            rw (step, ap (λ j. get_key j ev) (sym (eq_of_same_text k key e)) ∙ m.0, h k v ref, e)
              refl
        | inr e ↦ rw (step, h k v ref, e) refl
      ]

  cid-field :
      (k : Text) (v : Value) (ref : ReqRef)
      → (read_key views k v ref).cid
        ≡ (if same_text k cid_key then string_or_empty views v else ref.cid)
  unfolding read_key
  cid-field k v ref = ground arith

  fd-field :
      (k : Text) (v : Value) (ref : ReqRef)
      → (read_key views k v ref).fd ≡ (if same_text k fd_key then int_or_zero v else ref.fd)
  unfolding read_key
  fd-field k v ref =
      ground (arith, λ (e : same_text k cid_key ≡ true). same_text-apart k cid_key fd_key e refl)

  flags-field :
      (k : Text) (v : Value) (ref : ReqRef)
      → (read_key views k v ref).flags
        ≡ (if same_text k flags_key then int_or_zero v else ref.flags)
  unfolding read_key
  flags-field k v ref = ground (
    arith,
    λ (e : same_text k cid_key ≡ true). same_text-apart k cid_key flags_key e refl,
    λ (e : same_text k fd_key ≡ true). same_text-apart k fd_key flags_key e refl,
  )

  mode-field :
      (k : Text) (v : Value) (ref : ReqRef)
      → (read_key views k v ref).mode ≡ (if same_text k mode_key then int_or_zero v else ref.mode)
  unfolding read_key
  mode-field k v ref = ground (
    arith,
    λ (e : same_text k cid_key ≡ true). same_text-apart k cid_key mode_key e refl,
    λ (e : same_text k fd_key ≡ true). same_text-apart k fd_key mode_key e refl,
    λ (e : same_text k flags_key ≡ true). same_text-apart k flags_key mode_key e refl,
  )

  deadline-field :
      (k : Text) (v : Value) (ref : ReqRef)
      → (read_key views k v ref).deadline
        ≡ (if same_text k deadline_key then time_or_zero views v else ref.deadline)
  unfolding read_key
  deadline-field k v ref = ground (
    arith,
    λ (e : same_text k cid_key ≡ true). same_text-apart k cid_key deadline_key e refl,
    λ (e : same_text k fd_key ≡ true). same_text-apart k fd_key deadline_key e refl,
    λ (e : same_text k flags_key ≡ true). same_text-apart k flags_key deadline_key e refl,
    λ (e : same_text k mode_key ≡ true). same_text-apart k mode_key deadline_key e refl,
  )

  or_else-value :
      {A : Type 0} (d : A) (f : Value → A) (key : Text) (ev : HdpEvent)
      → f nil ≡ d
      → or_else d f (get_key key ev) ≡ f (value key ev)
  unfolding value
  or_else-value d f key ev h = elim (Option-cases (get_key key ev)) [
    | inl e ↦ rw e (sym h)
    | inr (v, e) ↦ rw e refl
  ]

  -- What SubmitIoReq reads of an event, in which no key comes twice, does not depend on the order
  -- in which Go visits the map: every field is what its own key holds, and the zero value when the
  -- key is missing or its value has another type.
  pub read_keys_lem :
      (ev : HdpEvent)
      → IsMap ev
      → read_keys views ev no_ref ≡ record {
        cid = string_or_empty views (value cid_key ev);
        fd = int_or_zero (value fd_key ev);
        flags = int_or_zero (value flags_key ev);
        mode = int_or_zero (value mode_key ev);
        deadline = time_or_zero views (value deadline_key ev);
      }
  read_keys_lem ev m =
      let cid =
        read_keys-field (λ r. r.cid) cid_key (string_or_empty views) cid-field ev no_ref m in
      let fd = read_keys-field (λ r. r.fd) fd_key int_or_zero fd-field ev no_ref m in
      let flags = read_keys-field (λ r. r.flags) flags_key int_or_zero flags-field ev no_ref m in
      let mode = read_keys-field (λ r. r.mode) mode_key int_or_zero mode-field ev no_ref m in
      let deadline =
        read_keys-field (λ r. r.deadline) deadline_key (time_or_zero views) deadline-field ev no_ref
          m in
      same_fields (read_keys views ev no_ref)
        (cid ∙ or_else-value "" (string_or_empty views) cid_key ev refl)
        (fd ∙ or_else-value 0 int_or_zero fd_key ev refl)
        (flags ∙ or_else-value 0 int_or_zero flags_key ev refl)
        (mode ∙ or_else-value 0 int_or_zero mode_key ev refl)
        (deadline ∙ or_else-value zero_time (time_or_zero views) deadline_key ev refl)
