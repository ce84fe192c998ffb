-- ===== src/Account/Codec.antt =====
-- An account's bytes and what AccountFromBytes makes of bytes.
use bitmarkd.Common.{ℕ, ◌≡◌, arith, Bool, true, false, List, drop}
use bitmarkd.Common.{bit_and, ◌/◌, ◌^◌, ◌==◌, not}
use bitmarkd.Go.{ok}
use bitmarkd.Account.{Account, ed25519_account, nothing_account, account_bytes, account_from_bytes}
use bitmarkd.Account.{IsKey, account_of_algorithm}
use bitmarkd.Util.Varint.{from_varint64}

-- AccountFromBytes reads back the bytes of every account whose key has its algorithm's length.
pub account_from_bytes-account_bytes :
    (a : Account) → IsKey a → account_from_bytes (account_bytes a) ≡ ok a
unfolding account_from_bytes account_bytes from_varint64
account_from_bytes-account_bytes (ed25519_account true key) h = ground arith
account_from_bytes-account_bytes (ed25519_account false key) h = ground arith
account_from_bytes-account_bytes (nothing_account true key) h = ground arith
account_from_bytes-account_bytes (nothing_account false key) h = ground arith

of_algorithm-IsKey :
    (algorithm : ℕ) (test : Bool) (key : List ℕ) (a : Account)
    → account_of_algorithm algorithm test key ≡ ok a
    → IsKey a
unfolding account_of_algorithm
of_algorithm-IsKey algorithm test key (ed25519_account t k) h = ground arith
of_algorithm-IsKey algorithm test key (nothing_account t k) h = ground arith

-- Whatever bytes AccountFromBytes accepts, the account's key has the length of its algorithm.
pub account_from_bytes-IsKey :
    (bytes : List ℕ) (a : Account) → account_from_bytes bytes ≡ ok a → IsKey a
unfolding account_from_bytes
account_from_bytes-IsKey bytes a h =
    let variant = (from_varint64 bytes).0 in
    let used = (from_varint64 bytes).1 in
    ground (
      arith,
      of_algorithm-IsKey (variant / 2 ^ 4) (not (bit_and variant 2 == 0)) (drop used bytes) a,
    )
