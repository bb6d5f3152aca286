-- ===== src/Dtype/Errors/Copies.antt =====
-- dtype/error.go, epoller/utils.go and utils.go: the copies of the error type against each other.
use aionet.Common.{ℕ, ◌≡◌, ◌≢◌, refl, true, false, List, ◌↔◌, arith}
use Prim.Native.String.{String}
use aionet.Dtype.Errors.{
  HdpError, dtype_error, epoller_error, connection_error, io_eof, message, same_code, to_eof,
}
use aionet.Epoller.Errors as Copy
use aionet.Transport.Errors as Own

-- The three Error methods give one message for equal fields, whatever fmt.Sprintf does.
pub messages_agree :
    {Arg : Type 0} (sprintf : String → List Arg → String) (int : ℕ → Arg) (e : HdpError Arg)
    → (message sprintf int e ≡ Copy.message sprintf int e)
      × (message sprintf int e ≡ Own.message sprintf int e)
unfolding message Copy.message Own.message
messages_agree sprintf int e = (refl, refl)

-- For errors of one package Is compares the codes alone; between the packages it never holds, even
-- for one code; and EOF gives io.EOF for code 26 and the error itself, which Is finds again, for
-- every other.
pub is_compares_codes :
    {Arg : Type 0} (e f : HdpError Arg)
    → ((same_code e (dtype_error f) ≡ true) ↔ (f.code ≡ e.code))
      × ((Copy.same_code e (epoller_error f) ≡ true) ↔ (f.code ≡ e.code))
      × ((Own.same_code e (connection_error f) ≡ true) ↔ (f.code ≡ e.code))
      × (same_code e (epoller_error f) ≡ false)
      × (same_code e (connection_error f) ≡ false)
      × (Copy.same_code e (dtype_error f) ≡ false)
      × (Copy.same_code e (connection_error f) ≡ false)
      × (Own.same_code e (dtype_error f) ≡ false)
      × (Own.same_code e (epoller_error f) ≡ false)
      × (e.code ≡ 26 → (to_eof e ≡ io_eof) × (Copy.to_eof e ≡ io_eof) × (Own.to_eof e ≡ io_eof))
      × (e.code ≢ 26
          → (same_code e (to_eof e) ≡ true)
            × (Copy.same_code e (Copy.to_eof e) ≡ true)
            × (Own.same_code e (Own.to_eof e) ≡ true))
unfolding same_code Copy.same_code Own.same_code to_eof Copy.to_eof Own.to_eof
is_compares_codes e f = (
  ground arith,
  ground arith,
  ground arith,
  refl,
  refl,
  refl,
  refl,
  refl,
  refl,
  λ h. (ground arith, ground arith, ground arith),
  λ h. (ground arith, ground arith, ground arith),
)
