-- ===== src/Tests/Util.antt =====
-- Runs of the code of util, account and currency.
use bitmarkd.Common.{
  ◌<◌, ◌≤◌, ◌≡◌, refl, arith, [], ◌∷◌, ◌++◌, length, take, All, ◌==◌, if◌then◌else◌, true,
  replicate,
}
use bitmarkd.Common.Int.{pos}
use bitmarkd.Account.{Account, ed25519_account, account_bytes, account_from_bytes, IsKey}
use bitmarkd.Account.Codec.{account_from_bytes-account_bytes, account_from_bytes-IsKey}
use bitmarkd.Go.{ok, panicked}
use bitmarkd.Util.Varint.{to_varint64, from_varint64, clipped_varint64, copy_varint64}
use bitmarkd.Util.Varint.Encode.{to_varint64_shape}
use bitmarkd.Util.Varint.Decode.{
  from_varint64_count, from_varint64-append, copy_varint64-from_varint64, from_varint64_truncated,
  clipped_varint64-to_varint64,
}
use bitmarkd.Util.Varint.RoundTrip.{from_varint64-to_varint64}
use bitmarkd.Util.Base58.{from_base58, to_base58}

to_varint64_300 : to_varint64 300 ≡ 0xac ∷ 0x02 ∷ []
unfolding to_varint64
to_varint64_300 = refl

to_varint64_top : length (to_varint64 0xffff_ffff_ffff_ffff) ≡ 9
unfolding to_varint64
to_varint64_top = refl

base58_runs : from_base58 (to_base58 (0 ∷ 0 ∷ 1 ∷ 200 ∷ 77 ∷ [])) ≡ 0 ∷ 0 ∷ 1 ∷ 200 ∷ 77 ∷ []
unfolding from_base58 to_base58
base58_runs = refl

from_varint64-to_varint64_example :
    from_varint64 (to_varint64 0xffff_ffff_ffff_ffff ++ (7 ∷ [])) ≡ (0xffff_ffff_ffff_ffff, 9)
unfolding to_varint64
from_varint64-to_varint64_example =
    from_varint64-to_varint64 0xffff_ffff_ffff_ffff (7 ∷ []) (omega arith)

to_varint64_shape_example :
    All (λ b. b < 256) (to_varint64 300)
    × (1 ≤ length (to_varint64 300))
    × (length (to_varint64 300) ≤ 9)
to_varint64_shape_example = to_varint64_shape 300 (omega arith)

from_varint64_count_example :
    ((from_varint64 (0xff ∷ 0xff ∷ [])).1 ≤ 9)
    × ((from_varint64 (0xff ∷ 0xff ∷ [])).1 ≤ 2)
    × ((from_varint64 (0xff ∷ 0xff ∷ [])).1 ≡ 0 → (from_varint64 (0xff ∷ 0xff ∷ [])).0 ≡ 0)
from_varint64_count_example = from_varint64_count (0xff ∷ 0xff ∷ [])

from_varint64-append_example :
    from_varint64 ((0xac ∷ 0x02 ∷ []) ++ (0xff ∷ [])) ≡ from_varint64 (0xac ∷ 0x02 ∷ [])
unfolding from_varint64
from_varint64-append_example = from_varint64-append (0xac ∷ 0x02 ∷ []) (0xff ∷ []) (omega arith)

from_varint64_truncated_example : from_varint64 (0xac ∷ []) ≡ (0, 0)
unfolding to_varint64
from_varint64_truncated_example = from_varint64_truncated 300 0x02 (0xac ∷ []) [] (omega arith) refl

clipped_varint64-to_varint64_example :
    clipped_varint64 (to_varint64 300 ++ (5 ∷ [])) (pos 1) (pos 8192)
    ≡ (300, length (to_varint64 300))
clipped_varint64-to_varint64_example =
    clipped_varint64-to_varint64 300 1 8192 (5 ∷ []) (omega arith) (omega arith) (omega arith)
      (omega arith)

copy_varint64-from_varint64_example : copy_varint64 (0xac ∷ 0x02 ∷ 0xff ∷ []) ≡ (
    if (from_varint64 (0xac ∷ 0x02 ∷ 0xff ∷ [])).1 == 0
    then panicked
    else ok (take (from_varint64 (0xac ∷ 0x02 ∷ 0xff ∷ [])).1 (0xac ∷ 0x02 ∷ 0xff ∷ [])))
copy_varint64-from_varint64_example = copy_varint64-from_varint64 (0xac ∷ 0x02 ∷ 0xff ∷ [])

abbrev account : Account
account = ed25519_account true (replicate 32 7)

account_from_bytes-account_bytes_example : account_from_bytes (account_bytes account) ≡ ok account
account_from_bytes-account_bytes_example = account_from_bytes-account_bytes account refl

account_from_bytes-IsKey_example : IsKey account
unfolding account_from_bytes from_varint64
account_from_bytes-IsKey_example = account_from_bytes-IsKey (0x13 ∷ replicate 32 7) account refl
