-- ===== src/TransactionRecord/Append.antt =====
-- transactionrecord/pack.go: the fields of a message, and the outcome of Pack.
use bitmarkd.Common.{ℕ, Bool, Option, none, some, List, [], ◌∷◌, ◌++◌, length}
use bitmarkd.Account.{Account, account_bytes}
use bitmarkd.Crypto.{Crypto}
use bitmarkd.Currency.Validate.{validate_address}
use bitmarkd.Fault.{Fault, invalid_owner_or_registrant}
use bitmarkd.Go.{Result, ok, err, panicked, exhausted, ◌>>◌, refuse, Pointer, deref}
use bitmarkd.TransactionRecord.Check.{nil_or_zero}
use bitmarkd.TransactionRecord.Types.{Payment}
use bitmarkd.Util.Varint.{to_varint64}

unfoldable pub create_packed : ℕ → List ℕ
create_packed tag = to_varint64 tag

-- appendString, appendAccount and appendBytes: the bytes, with their length before them.
unfoldable pub append_bytes : List ℕ → List ℕ → List ℕ
append_bytes buffer bytes = buffer ++ (to_varint64 (length bytes) ++ bytes)

unfoldable pub append_string : List ℕ → List ℕ → List ℕ
append_string buffer s = buffer ++ (to_varint64 (length s) ++ s)

unfoldable pub append_account : List ℕ → Account → List ℕ
append_account buffer address =
    buffer ++ (to_varint64 (length (account_bytes address)) ++ account_bytes address)

unfoldable pub append_uint64 : List ℕ → ℕ → List ℕ
append_uint64 buffer value = buffer ++ to_varint64 value

unfoldable pub append_escrow : Crypto → List ℕ → Option Payment → Bool → Result (List ℕ)
unfolding append_uint64 append_string
append_escrow c buffer none testnet = ok (buffer ++ (0 ∷ []))
append_escrow c buffer (some escrow) testnet = do
  validate_address c escrow.currency escrow.address testnet
  let with_currency = append_uint64 (buffer ++ (1 ∷ [])) escrow.currency
  ok (append_uint64 (append_string with_currency escrow.address) escrow.amount)

-- What Pack returns: the packed record; the unsigned message with the error of a signature; or
-- no message and an error.
pub data Packing : Type 0 where
  packed : List ℕ → Packing
  unsigned : List ℕ → Fault → Packing
  refused : Fault → Packing
  crashed : Packing

-- The part of Pack before the first signature returns no message with its errors.
abbrev pub prepare {ℓ} : {A : Type ℓ} → Result A → (A → Packing) → Packing
prepare (ok a) k = k a
prepare (err e) k = refused e
prepare panicked k = crashed
prepare exhausted k = crashed

-- A signature's check returns the message with its error.
abbrev pub signed : List ℕ → Result (Unit {0}) → Packing → Packing
signed message (ok u) k = k
signed message (err e) k = unsigned message e
signed message panicked k = crashed
signed message exhausted k = crashed

-- The guard at the head of each Pack, and the account that it lets through.
abbrev pub valid_address : Pointer Account → Result Account
valid_address address = do refuse (nil_or_zero address) invalid_owner_or_registrant; deref address
