-- ===== src/EventMap/Lookups.antt =====
-- dtype/dtype.go: reading a key of an event after it is set or deleted.
use aionet.Common.{
  ◌≡◌, refl, false, arith, Text, same_text, same_text_refl, set_key, delete_key, get_key-set_key,
  get_key-delete_key,
}
use aionet.EventMap.{Value, nil, HdpEvent, value}

pub value-set_key_self : (k : Text) (v : Value) (r : HdpEvent) → value k (set_key k v r) ≡ v
unfolding value
value-set_key_self k v r = ground (arith, get_key-set_key k k v r, same_text_refl k)

pub value-set_key_ne :
    (k j : Text) (v : Value) (r : HdpEvent)
    → same_text k j ≡ false
    → value j (set_key k v r) ≡ value j r
unfolding value
value-set_key_ne k j v r h = ground (arith, get_key-set_key k j v r)

pub value-delete_key_self : (k : Text) (r : HdpEvent) → value k (delete_key k r) ≡ nil
unfolding value
value-delete_key_self k r = rw (get_key-delete_key k k r, same_text_refl k) refl

pub value-delete_key_ne :
    (k j : Text) (r : HdpEvent) → same_text k j ≡ false → value j (delete_key k r) ≡ value j r
unfolding value
value-delete_key_ne k j r h = rw (get_key-delete_key k j r, h) refl
