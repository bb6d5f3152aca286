-- ===== src/Common/Texts.antt =====
-- Go strings as their bytes, and Go maps with string keys as association lists.
use Prim.Native.Nat.{ℕ}
use Prim.Native.Char.{code}
use Prim.Native.String.{String}
use mathlib.Core.Path.{◌≡◌, refl}
use mathlib.Core.Logic.{◌≢◌}
use mathlib.Core.Bool.{Bool, true, false, ◌&&◌}
use mathlib.Core.List.{List, [], ◌∷◌}
use mathlib.Core.Option.{Option, none, some}
use native.Mathlib.Omega.{arith}
use aionet.Common.Tests.{◌==◌, if◌then◌else◌}

abbrev pub Text : Type 0
Text = List ℕ

-- The bytes of an ASCII literal.
abbrev pub ascii : String → Text
ascii String.[] = []
ascii (String.◌∷◌ c s) = code c ∷ ascii s

abbrev pub same_text : Text → Text → Bool
same_text [] [] = true
same_text [] (y ∷ ys) = false
same_text (x ∷ xs) [] = false
same_text (x ∷ xs) (y ∷ ys) = x == y && same_text xs ys

pub same_text_refl : (s : Text) → same_text s s ≡ true
same_text_refl [] = refl
same_text_refl (a ∷ s) = ground (arith, same_text_refl s)

pub eq_of_same_text : (s t : Text) → same_text s t ≡ true → s ≡ t
eq_of_same_text [] [] h = refl
eq_of_same_text [] (y ∷ ys) h = cc
eq_of_same_text (x ∷ xs) [] h = cc
eq_of_same_text (x ∷ xs) (y ∷ ys) h = ground (arith, eq_of_same_text xs ys)

pub same_text_ne : (s t : Text) → s ≢ t → same_text s t ≡ false
same_text_ne s t h = ground (arith, eq_of_same_text s t)

module _ {ℓ} {A : Type ℓ} where
  -- `m[k]`, where `none` is a missing key.
  abbrev pub get_key : Text → List (Text × A) → Option A
  get_key k [] = none
  get_key k ((j, v) ∷ m) = if same_text j k then some v else get_key k m

  -- `m[k] = v`.
  abbrev pub set_key : Text → A → List (Text × A) → List (Text × A)
  set_key k v [] = (k, v) ∷ []
  set_key k v ((j, w) ∷ m) = if same_text j k then (k, v) ∷ m else (j, w) ∷ set_key k v m

  -- `delete(m, k)`.
  abbrev pub delete_key : Text → List (Text × A) → List (Text × A)
  delete_key k [] = []
  delete_key k ((j, v) ∷ m) = if same_text j k then delete_key k m else (j, v) ∷ delete_key k m

  pub get_key-set_key :
      (k j : Text) (v : A) (m : List (Text × A))
      → get_key j (set_key k v m) ≡ (if same_text k j then some v else get_key j m)
  get_key-set_key k j v [] = refl
  get_key-set_key k j v ((i, w) ∷ m) = ground (
    arith,
    get_key-set_key k j v m,
    eq_of_same_text i k,
    eq_of_same_text k j,
    eq_of_same_text i j,
    same_text_refl k,
  )

  pub get_key-delete_key :
      (k j : Text) (m : List (Text × A))
      → get_key j (delete_key k m) ≡ (if same_text k j then none else get_key j m)
  get_key-delete_key k j [] = ground arith
  get_key-delete_key k j ((i, w) ∷ m) = ground (
    arith,
    get_key-delete_key k j m,
    eq_of_same_text i k,
    eq_of_same_text k j,
    eq_of_same_text i j,
    same_text_refl k,
  )
