-- ===== src/Tests/Records.antt =====
-- Runs of the code of currency and transactionrecord.
use bitmarkd.Fault.{Fault}
use bitmarkd.Common.{
  ◌⊎◌, ℕ, ◌%◌, ◌≡◌, refl, arith, List, [], ◌∷◌, ◌++◌, length, take, true, replicate, bytes_eq, some,
}
use bitmarkd.Crypto.{Crypto}
use bitmarkd.Account.{Account, ed25519_account, is_zero, is_testing, check_signature}
use bitmarkd.Currency
use bitmarkd.Currency.Map.{Map, lookup, pack, unpack_map}
use bitmarkd.Currency.Validate
use bitmarkd.Currency.Bitcoin
use bitmarkd.Currency.Litecoin
use bitmarkd.Go.Utf8.{rune_count}
use bitmarkd.Currency.Set.{make_set}
use bitmarkd.Currency.Payments.{both, unpack_map-pack}
use bitmarkd.Go.{Result, ok, err, panicked, exhausted, Ref}
use bitmarkd.TransactionRecord.Types.{Transaction, ShareGrant, share_grant}
use bitmarkd.TransactionRecord.Check.{check_payments, grant_check}
use bitmarkd.TransactionRecord.Append.{Packing, packed, unsigned, refused, crashed}
use bitmarkd.TransactionRecord.Pack
use bitmarkd.TransactionRecord.Pack.Double.{grant_pack}
use bitmarkd.TransactionRecord.Unpack.{unpack}
use bitmarkd.TransactionRecord.Payments.{check_payments_two}
use bitmarkd.TransactionRecord.Aliases.{grant_check_self}
use bitmarkd.TransactionRecord.Signatures.{SignedBy, pack-SignedBy}
use bitmarkd.TransactionRecord.Total.{unpack-returns}
use bitmarkd.TransactionRecord.RoundTrip.Whole.{unpack-pack, read_back}
use bitmarkd.Util.Base58.{to_base58, from_base58}

-- Stand-ins for the hashes and for the verification, which accepts a signature that starts with
-- the key.
abbrev crypto : Crypto
crypto = record {
  sha256 = λ bytes. replicate 32 (length bytes % 256);
  sha3_256 = λ bytes. replicate 32 (length bytes % 251);
  verify = λ key message signature. bytes_eq key (take 32 signature);
}

abbrev key_one : List ℕ
key_one = replicate 32 7

abbrev key_two : List ℕ
key_two = replicate 32 9

abbrev owner_ref : Ref Account
owner_ref = record { location = 1; target = ed25519_account true key_one }

abbrev recipient_ref : Ref Account
recipient_ref = record { location = 2; target = ed25519_account true key_two }

abbrev grant : ShareGrant
grant = record {
  share_id = replicate 32 3;
  quantity = 1000;
  owner = some owner_ref;
  recipient = some recipient_ref;
  before_block = 70000;
  signature = key_one ++ replicate 32 1;
  countersignature = key_two ++ replicate 32 2;
}

abbrev packed_bytes : Packing → List ℕ
packed_bytes (packed bytes) = bytes
packed_bytes (unsigned message e) = []
packed_bytes (refused e) = []
packed_bytes crashed = []

abbrev grant_bytes : List ℕ
unfolding Pack.pack
grant_bytes = packed_bytes (Pack.pack crypto (share_grant grant) (some owner_ref))

grant_packed : Pack.pack crypto (share_grant grant) (some owner_ref) ≡ packed grant_bytes
unfolding Pack.pack grant_pack is_zero grant_check check_signature
grant_packed = refl

unpack-pack_example :
    unpack crypto 5 (record { visible = grant_bytes ++ (1 ∷ 2 ∷ []); spare = 3 ∷ [] }) true
    ≡ ok (read_back 5 (share_grant grant), length grant_bytes)
unfolding is_testing
unpack-pack_example =
    unpack-pack crypto 5 true (share_grant grant) (some owner_ref) grant_bytes (1 ∷ 2 ∷ []) (3 ∷ [])
      (record {
        share_id_fits = refl;
        quantity_fits = omega arith;
        owner_fits = (refl, refl);
        recipient_fits = (refl, refl);
        before_block_fits = omega arith;
      })
      refl grant_packed

pack-SignedBy_example : SignedBy crypto (some owner_ref) grant.signature grant_bytes
pack-SignedBy_example =
    pack-SignedBy crypto (share_grant grant) (some owner_ref) grant_bytes grant_packed

abbrev address : List ℕ
unfolding to_base58
address = to_base58 ((111 ∷ replicate 20 5) ++ replicate 4 32)

abbrev payments : Map
payments = (Currency.litecoin, address) ∷ (Currency.bitcoin, address) ∷ []

abbrev ok_bytes : Result (List ℕ) → List ℕ
ok_bytes (ok bytes) = bytes
ok_bytes (err e) = []
ok_bytes panicked = []
ok_bytes exhausted = []

abbrev payment_bytes : List ℕ
unfolding pack
payment_bytes = ok_bytes (pack crypto payments true)

payments_packed : pack crypto payments true ≡ ok payment_bytes
unfolding pack address Validate.validate_address rune_count Bitcoin.validate_address from_base58
    Bitcoin.is_testnet Litecoin.validate_address Litecoin.is_testnet
payments_packed = refl

payments_checked : check_payments crypto 1 true payments ≡ ok tt
unfolding check_payments address Validate.validate_address rune_count Bitcoin.validate_address
    from_base58 Bitcoin.is_testnet Litecoin.validate_address Litecoin.is_testnet
payments_checked = refl

unpack_map-pack_example :
    unpack_map crypto (record { visible = payment_bytes; spare = 9 ∷ [] }) true
    ≡ ok (both address address, make_set (Currency.bitcoin ∷ Currency.litecoin ∷ []))
unfolding lookup
unpack_map-pack_example =
    unpack_map-pack crypto payments true payment_bytes (9 ∷ []) refl payments_packed

check_payments_two_example : (◌≡◌ {A = ℕ} 1 1) × (length payments ≡ 2)
check_payments_two_example = check_payments_two crypto 1 true payments payments_checked

grant_check_self_example :
    grant_check (record grant {
      recipient = some (record { location = 2; target = ed25519_account true key_one });
    })
    ≡ ok tt
unfolding is_zero
grant_check_self_example =
    grant_check_self grant (ed25519_account true key_one) 1 2 (omega arith) refl (omega arith)
      (omega arith) (omega arith)

-- A length that runs past the end of the slice.
unpack-returns_example :
    ((r : Transaction × ℕ) × (unpack crypto 5
          (record { visible = 3 ∷ 200 ∷ 1 ∷ []; spare = [] })
          true
        ≡ ok r))
    ⊎ ((e : Fault) × (unpack crypto 5 (record { visible = 3 ∷ 200 ∷ 1 ∷ []; spare = [] }) true
          ≡ err e))
unpack-returns_example =
    unpack-returns crypto 5 (record { visible = 3 ∷ 200 ∷ 1 ∷ []; spare = [] }) true
