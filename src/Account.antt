-- ===== src/Account.antt =====
-- account/account.go: public keys with their network and algorithm, as bytes and as base 58 text.
pub mod Codec
use bitmarkd.Common.{ℕ, ◌+◌, ◌-◌, ◌*◌, ◌/◌, ◌^◌, bit_and, bit_or, Bool, true, false, not, ◌||◌}
use bitmarkd.Common.{List, [], ◌∷◌, ◌++◌, ◌==◌, leb, if◌then◌else◌, length, take, drop}
use bitmarkd.Common.{bytes_eq, all_zero, ◌≡◌}
use bitmarkd.Fault.{
  Fault, not_public_key, invalid_key_type, invalid_key_length, invalid_signature,
  cannot_decode_account, checksum_mismatch,
}
use bitmarkd.Go.{Result, ok, err, panicked, ◌>>=◌, ◌>>◌, refuse}
use bitmarkd.Crypto.{Crypto}
use bitmarkd.Util.Varint.{from_varint64}
use bitmarkd.Util.Base58.{from_base58, to_base58}

-- The enumeration of key algorithms.
abbrev pub nothing : ℕ
nothing = 0

abbrev pub ed25519 : ℕ
ed25519 = 1

abbrev pub algorithm_limit : ℕ
algorithm_limit = 2

abbrev checksum_length : ℕ
checksum_length = 4

abbrev public_key_code : ℕ
public_key_code = 0x01

abbrev test_key_code : ℕ
test_key_code = 0x02

abbrev pub public_key_size : ℕ
public_key_size = 32

abbrev pub signature_size : ℕ
signature_size = 64

-- The two implementations of AccountInterface, each with its fields Test and PublicKey.
pub data Account : Type 0 where
  ed25519_account : Bool → List ℕ → Account
  nothing_account : Bool → List ℕ → Account

-- The switch on the algorithm, which ends AccountFromBytes and AccountFromBase58.
unfoldable pub account_of_algorithm : ℕ → Bool → List ℕ → Result Account
account_of_algorithm algorithm is_test public_key =
    if algorithm == ed25519
    then (do
      refuse (not (length public_key == public_key_size)) invalid_key_length
      ok (ed25519_account is_test public_key))
    else if algorithm == nothing
    then (do
      refuse (not (length public_key == 2)) invalid_key_length
      ok (nothing_account is_test public_key))
    else err invalid_key_type

unfoldable pub account_from_bytes : List ℕ → Result Account
unfolding account_of_algorithm
account_from_bytes account_bytes = do
  let key_variant = (from_varint64 account_bytes).0
  let key_variant_length = (from_varint64 account_bytes).1
  refuse (key_variant_length == 0 || not (bit_and key_variant public_key_code == public_key_code))
      not_public_key
  let key_algorithm = key_variant / 2 ^ 4
  refuse (leb algorithm_limit key_algorithm) invalid_key_type
  let is_test = not (bit_and key_variant test_key_code == 0)
  refuse (leb (length account_bytes) key_variant_length) invalid_key_length
  account_of_algorithm key_algorithm is_test (drop key_variant_length account_bytes)

unfoldable pub account_from_base58 : Crypto → List ℕ → Result Account
unfolding account_of_algorithm
account_from_base58 c account_base58_encoded = do
  let account_decoded = from_base58 account_base58_encoded
  refuse (length account_decoded == 0) cannot_decode_account
  let key_variant = (from_varint64 account_decoded).0
  let key_variant_length = (from_varint64 account_decoded).1
  refuse (key_variant_length == 0 || not (bit_and key_variant public_key_code == public_key_code))
      not_public_key
  let key_algorithm = key_variant / 2 ^ 4
  refuse (leb algorithm_limit key_algorithm) invalid_key_type
  let is_test = not (bit_and key_variant test_key_code == 0)
  refuse (leb (length account_decoded) (key_variant_length + checksum_length)) invalid_key_length
  let checksum_start = length account_decoded - checksum_length
  let checksum = c.sha3_256 (take checksum_start account_decoded)
  refuse (not (bytes_eq (take checksum_length checksum) (drop checksum_start account_decoded)))
      checksum_mismatch
  account_of_algorithm key_algorithm is_test
      (drop key_variant_length (take checksum_start account_decoded))

unfoldable pub key_variant_byte : ℕ → Bool → ℕ
key_variant_byte algorithm test =
    let key_variant = bit_or (algorithm * 2 ^ 4) public_key_code in
    if test then bit_or key_variant test_key_code else key_variant

unfoldable pub account_bytes : Account → List ℕ
unfolding key_variant_byte
account_bytes (ed25519_account test public_key) = key_variant_byte ed25519 test ∷ public_key
account_bytes (nothing_account test public_key) = key_variant_byte nothing test ∷ public_key

-- String: base 58 of the bytes with a checksum behind them.
unfoldable pub account_string : Crypto → Account → List ℕ
unfolding account_bytes
account_string c account =
    let buffer = account_bytes account in
    to_base58 (buffer ++ take checksum_length (c.sha3_256 buffer))

-- ed25519.Verify panics on a public key of another length.
unfoldable pub check_signature : Crypto → Account → List ℕ → List ℕ → Result (Unit {0})
check_signature c (ed25519_account test public_key) message signature = do
  refuse (not (length signature == signature_size)) invalid_signature
  (if length public_key == public_key_size then ok tt else panicked)
  refuse (not (c.verify public_key message signature)) invalid_signature
check_signature c (nothing_account test public_key) message signature = err invalid_signature

unfoldable pub is_testing : Account → Bool
is_testing (ed25519_account test public_key) = test
is_testing (nothing_account test public_key) = test

unfoldable pub is_zero : Account → Bool
is_zero (ed25519_account test public_key) = all_zero public_key
is_zero (nothing_account test public_key) = all_zero public_key

-- The length that each algorithm gives its keys.
abbrev pub IsKey : Account → Type 0
IsKey (ed25519_account test public_key) = length public_key ≡ public_key_size
IsKey (nothing_account test public_key) = length public_key ≡ 2
