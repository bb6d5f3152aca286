-- ===== src/Common/Outcome.antt =====
-- What Go code does beside returning: errors as values, and panics. Words wrap at their width.
use Prim.Native.Nat.{ℕ, ◌+◌, ◌-◌, ◌%◌}
use Prim.Native.String.{String}
use mathlib.Core.Path.{◌≡◌, ap}
use mathlib.Core.Option.{Option, none, some}
use mathlib.Core.List.{List}
use aionet.Common.Tests.{◌==◌, if◌then◌else◌}
use aionet.Common.Lists.{get_elem?}

-- An `error` value. `hdp` is an `*HdpError` by its code (its arguments only serve the message),
-- `errno` a `unix.Errno`, `errorf` a `fmt.Errorf` by its format and its numeric
-- arguments, `syscall` an `*os.SyscallError`.
pub data Error : Type 0 where
  hdp : ℕ → Error
  errno : ℕ → Error
  errorf : String → List ℕ → Error
  syscall : String → Error → Error
  eof unexpected_eof deadline_exceeded : Error

-- Why a goroutine panics.
pub data Panic : Type 0 where
  nil_dereference index_out_of_range slice_out_of_range divide_by_zero : Panic
  raised : String → Panic

-- The outcome of code that may panic.
pub data Go {ℓ} (A : Type ℓ) : Type ℓ where
  ret : A → Go A
  panics : Panic → Go A

infixl 5 ◌>>=◌ ◌>>◌
abbrev pub ◌>>=◌ {ℓ κ} : {A : Type ℓ} {B : Type κ} → Go A → (A → Go B) → Go B
ret a >>= f = f a
panics e >>= f = panics e

abbrev pub ◌>>◌ {ℓ} : {B : Type ℓ} → Go (Unit {0}) → Go B → Go B
m >> k = m >>= λ _. k

-- `*p`, where `none` is nil.
abbrev pub deref {ℓ} : {A : Type ℓ} → Option A → Go A
deref none = panics nil_dereference
deref (some a) = ret a

-- `xs[i]`.
abbrev pub at_or_panic {ℓ} : {A : Type ℓ} → Option A → Go A
at_or_panic none = panics index_out_of_range
at_or_panic (some a) = ret a

abbrev pub index {ℓ} : {A : Type ℓ} → List A → ℕ → Go A
index xs i = at_or_panic (get_elem? xs i)

-- `a % b` on unsigned integers.
abbrev pub rem : ℕ → ℕ → Go ℕ
rem a b = if b == 0 then panics divide_by_zero else ret (a % b)

abbrev pub u16 : ℕ → ℕ
u16 n = n % 65536

abbrev pub u32 : ℕ → ℕ
u32 n = n % 4294967296

-- `math.MaxUint32`.
abbrev pub max_uint32 : ℕ
max_uint32 = 4294967295

-- uint32 addition and subtraction.
abbrev pub add32 : ℕ → ℕ → ℕ
add32 a b = u32 (a + b)

abbrev pub sub32 : ℕ → ℕ → ℕ
sub32 a b = u32 (a + 4294967296 - b)

-- The value of an outcome, or `d`.
abbrev pub value_or {ℓ} : {A : Type ℓ} → A → Go A → A
value_or d (ret a) = a
value_or d (panics e) = d

pub ret-injective {ℓ} : {A : Type ℓ} {a b : A} → ret a ≡ ret b → a ≡ b
ret-injective {a} e = ap (value_or a) e
