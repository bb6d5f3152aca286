-- ===== src/Common/Maps.antt =====
-- Go maps with integer keys as association lists.
use Prim.Native.Nat.{ℕ}
use mathlib.Core.Path.{◌≡◌, refl}
use mathlib.Core.Logic.{◌≢◌}
use mathlib.Core.List.{List, [], ◌∷◌}
use mathlib.Core.Option.{Option, none, some}
use native.Mathlib.Omega.{arith}
use aionet.Common.Tests.{◌==◌, if◌then◌else◌}

abbrev pub lookup {ℓ} : {A : Type ℓ} → ℕ → List (ℕ × A) → Option A
lookup k [] = none
lookup k ((j, v) ∷ m) = if j == k then some v else lookup k m

abbrev pub remove {ℓ} : {A : Type ℓ} → ℕ → List (ℕ × A) → List (ℕ × A)
remove k [] = []
remove k ((j, v) ∷ m) = if j == k then remove k m else (j, v) ∷ remove k m

-- `m[k] = v`.
abbrev pub insert {ℓ} : {A : Type ℓ} → ℕ → A → List (ℕ × A) → List (ℕ × A)
insert k v [] = (k, v) ∷ []
insert k v ((j, w) ∷ m) = if j == k then (k, v) ∷ m else (j, w) ∷ insert k v m

pub lookup-insert_self {ℓ} :
    {A : Type ℓ} (k : ℕ) (v : A) (m : List (ℕ × A)) → lookup k (insert k v m) ≡ some v
lookup-insert_self k v [] = ground arith
lookup-insert_self k v ((j, w) ∷ m) = ground (arith, lookup-insert_self k v m)

pub lookup-insert_ne {ℓ} :
    {A : Type ℓ} (k j : ℕ) (v : A) (m : List (ℕ × A)) → j ≢ k → lookup j (insert k v m) ≡ lookup j m
lookup-insert_ne k j v [] h = ground arith
lookup-insert_ne k j v ((i, w) ∷ m) h = ground (arith, lookup-insert_ne k j v m h)

pub lookup-remove_self {ℓ} : {A : Type ℓ} (k : ℕ) (m : List (ℕ × A)) → lookup k (remove k m) ≡ none
lookup-remove_self k [] = refl
lookup-remove_self k ((j, w) ∷ m) = ground (arith, lookup-remove_self k m)

pub lookup-remove_ne {ℓ} :
    {A : Type ℓ} (k j : ℕ) (m : List (ℕ × A)) → j ≢ k → lookup j (remove k m) ≡ lookup j m
lookup-remove_ne k j [] h = refl
lookup-remove_ne k j ((i, w) ∷ m) h = ground (arith, lookup-remove_ne k j m h)
