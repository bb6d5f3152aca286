-- ===== src/Dtype/Errors.antt =====
-- dtype/error.go: the error type of the dtype package, and what the copies of it in dtype/error.go,
-- epoller/utils.go and utils.go share.
pub mod Copies
use aionet.Common.{ℕ, Bool, false, ◌==◌, if◌then◌else◌, List, [], ◌∷◌, Option, none, some}
use Prim.Native.String.{String}

-- `HdpError`. The flag is an event's in dtype and an HDP_STATE1 in the others, an integer in all.
-- `Arg` is what `any` holds.
pub record HdpError (Arg : Type 0) : Type 0 where
  pub code : ℕ
  pub flag : ℕ
  pub args : List Arg

-- An `error`, by its dynamic type. The three HdpError types are different to Go.
pub data GoError (Arg : Type 0) : Type 0 where
  dtype_error : HdpError Arg → GoError Arg
  epoller_error : HdpError Arg → GoError Arg
  connection_error : HdpError Arg → GoError Arg
  io_eof : GoError Arg
  other_error : ℕ → GoError Arg

abbrev pub find_format : List (ℕ × String) → ℕ → Option String
find_format [] n = none
find_format ((k, s) ∷ cs) n = if n == k then some s else find_format cs n

-- The formats of `HdpError.Error` that take the error's arguments.
abbrev formats : List (ℕ × String)
formats =
    (2, "%s %s readFrom[%d] new conn error : %v")
    ∷ (3, "%s %s checksum verification failed : %v")
    ∷ (4, "%s %s read %s flag is required")
    ∷ (5, "%s %s connect to new conn error : %v")
    ∷ (6, "%s %s read header error : %v")
    ∷ (7, "%s %s write header error : %v")
    ∷ (8, "%s %s writeTo[%d] new conn error : %v")
    ∷ (9, "%s unsupported flag : %s")
    ∷ (10, "%s uint32 seqnum overflow")
    ∷ (11, "%s can't move from %s to %s")
    ∷ (12, "%s ring buffer is full")
    ∷ (13, "%s io request is cancelled")
    ∷ (14, "%s io request timed-out")
    ∷ (15, "%s connection is closing")
    ∷ (16, "%s connection is closed")
    ∷ (17, "%s connection is aborted")
    ∷ (18, "%s connection is refused")
    ∷ (19, "%s connection is reset")
    ∷ (20, "%s closing error : %v")
    ∷ (21, "%s dialing remote %s timed-out")
    ∷ (22, "%s connect protocol error %v")
    ∷ (23, "%s socket opt error query timeout")
    ∷ (24, "%s socket create error : %v")
    ∷ (25, "%s socket bind error : %v")
    ∷ (26, "%s socket state is EOF")
    ∷ []

module _ {Arg : Type 0} (sprintf : String → List Arg → String) (int : ℕ → Arg) where
  -- `HdpError.Error`. `sprintf` is fmt.Sprintf, and `int` a number passed to it.
  unfoldable pub message : HdpError Arg → String
  message e =
      if e.code == 1
      then "connection peer refnum does not match locally"
      else elim (find_format formats e.code) [
        | none ↦ sprintf "unsupported error code : %d" (int e.code ∷ [])
        | some f ↦ sprintf f e.args
      ]

module _ {Arg : Type 0} where
  -- `HdpError.Is`.
  unfoldable pub same_code : HdpError Arg → GoError Arg → Bool
  same_code e (dtype_error p) = p.code == e.code
  same_code e _ = false

  -- `HdpError.EOF`.
  unfoldable pub to_eof : HdpError Arg → GoError Arg
  to_eof e = if e.code == 26 then io_eof else dtype_error e
