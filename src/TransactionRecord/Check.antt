-- ===== src/TransactionRecord/Check.antt =====
-- transactionrecord/pack.go: the check methods, which Pack and Unpack both call, and CheckPayments.
-- The network is an argument of the checks that look at it.
use bitmarkd.Common.{ℕ, ◌%◌, Bool, true, false, not, ◌||◌, Option, none, some, List, [], ◌∷◌}
use bitmarkd.Common.{◌==◌, ltb, leb, if◌then◌else◌, length, bytes_eq}
use bitmarkd.Account.{Account, is_zero}
use bitmarkd.Crypto.{Crypto}
use bitmarkd.Currency
use bitmarkd.Currency.Map.{Map}
use bitmarkd.Currency.Set.{Set, add, make_set, set_eq}
use bitmarkd.Currency.Validate.{validate_address}
use bitmarkd.Fault.{
  signature_too_long, invalid_owner_or_registrant, name_too_long, fingerprint_too_short,
  fingerprint_too_long, metadata_too_long, metadata_is_not_map, share_quantity_too_small,
  share_ids_cannot_be_identical, invalid_payment_version, invalid_currency_address,
}
use bitmarkd.Go.{Result, ok, err, ◌>>=◌, ◌>>◌, refuse, Pointer, same_pointer}
use bitmarkd.Go.Utf8.{rune_count}
use bitmarkd.TransactionRecord.Types.{
  OldBaseData, AssetData, BitmarkIssue, BitmarkTransferUnratified, BitmarkTransferCountersigned,
  BlockFoundation, BlockOwnerTransfer, BitmarkShare, ShareGrant, ShareSwap,
}

abbrev pub max_name_length : ℕ
max_name_length = 64

abbrev pub max_metadata_length : ℕ
max_metadata_length = 2048

abbrev pub min_fingerprint_length : ℕ
min_fingerprint_length = 1

abbrev pub max_fingerprint_length : ℕ
max_fingerprint_length = 1024

abbrev pub max_signature_length : ℕ
max_signature_length = 1024

-- p == nil || p.IsZero()
abbrev pub nil_or_zero : Pointer Account → Bool
nil_or_zero none = true
nil_or_zero (some r) = is_zero r.target

abbrev pub is_nil {ℓ} : {A : Type ℓ} → Option A → Bool
is_nil none = true
is_nil (some a) = false

abbrev pub signature_fits : List ℕ → Result (Unit {0})
signature_fits signature = refuse (ltb max_signature_length (length signature)) signature_too_long

-- The supported currency sets, by version.
unfoldable pub versions : ℕ → Set
unfolding make_set
versions v = if v == 0 then make_set [] else make_set (Currency.bitcoin ∷ Currency.litecoin ∷ [])

abbrev pub version_count : ℕ
version_count = 2

unfoldable pub check_payments_loop : Crypto → Bool → Map → Set → Result Set
check_payments_loop c testnet [] cs = ok cs
check_payments_loop c testnet ((currency, address) ∷ payments) cs =
    let (cs', present) = add cs currency in
    let rest = check_payments_loop c testnet payments cs' in
    (do
      validate_address c currency address testnet
      (if present then err invalid_currency_address else rest))

unfoldable pub check_payments : Crypto → ℕ → Bool → Map → Result (Unit {0})
unfolding check_payments_loop versions
check_payments c version testnet payments = do
  refuse (ltb version 1 || leb version_count version) invalid_payment_version
  cs ← check_payments_loop c testnet payments (make_set [])
  refuse (not (set_eq (versions version) cs)) invalid_currency_address

unfoldable pub base_data_check : OldBaseData → Result (Unit {0})
base_data_check base_data = do
  signature_fits base_data.signature
  refuse (nil_or_zero base_data.owner) invalid_owner_or_registrant

-- strings.Split(s, "\u0000"), from the front: a byte joins the first part, or ends it.
unfoldable pub split_byte : ℕ → List (List ℕ) → List (List ℕ)
split_byte b [] = []
split_byte b (part ∷ parts) = if b == 0 then [] ∷ (part ∷ parts) else (b ∷ part) ∷ parts

unfoldable pub split_nul : List ℕ → List (List ℕ)
unfolding split_byte
split_nul [] = [] ∷ []
split_nul (b ∷ bs) = split_byte b (split_nul bs)

unfoldable pub any_empty : List (List ℕ) → Bool
any_empty [] = false
any_empty ([] ∷ parts) = true
any_empty ((b ∷ bs) ∷ parts) = any_empty parts

unfoldable pub metadata_check : List ℕ → Result (Unit {0})
unfolding split_nul any_empty
metadata_check [] = ok tt
metadata_check (b ∷ bs) = do
  let split_metadata = split_nul (b ∷ bs)
  refuse (length split_metadata % 2 == 1) metadata_is_not_map
  refuse (any_empty split_metadata) metadata_is_not_map

unfoldable pub asset_data_check : AssetData → Result (Unit {0})
asset_data_check asset = do
  signature_fits asset.signature
  refuse (nil_or_zero asset.registrant) invalid_owner_or_registrant
  refuse (ltb max_name_length (rune_count asset.name)) name_too_long
  refuse (ltb (rune_count asset.fingerprint) min_fingerprint_length) fingerprint_too_short
  refuse (ltb max_fingerprint_length (rune_count asset.fingerprint)) fingerprint_too_long
  refuse (ltb max_metadata_length (rune_count asset.metadata)) metadata_too_long
  metadata_check asset.metadata

unfoldable pub issue_check : BitmarkIssue → Result (Unit {0})
issue_check issue = do
  signature_fits issue.signature
  refuse (nil_or_zero issue.owner) invalid_owner_or_registrant

-- A zero owner is accepted: it destroys the bitmark.
unfoldable pub unratified_check : BitmarkTransferUnratified → Result (Unit {0})
unratified_check transfer = do
  signature_fits transfer.signature
  refuse (is_nil transfer.owner) invalid_owner_or_registrant

unfoldable pub countersigned_check : BitmarkTransferCountersigned → Result (Unit {0})
countersigned_check transfer = do
  signature_fits transfer.signature
  signature_fits transfer.countersignature
  refuse (nil_or_zero transfer.owner) invalid_owner_or_registrant

unfoldable pub foundation_check : Crypto → BlockFoundation → Bool → Result (Unit {0})
foundation_check c foundation testnet = do
  signature_fits foundation.signature
  refuse (nil_or_zero foundation.owner) invalid_owner_or_registrant
  check_payments c foundation.version testnet foundation.payments

unfoldable pub owner_transfer_check : Crypto → BlockOwnerTransfer → Bool → Result (Unit {0})
owner_transfer_check c transfer testnet = do
  signature_fits transfer.signature
  signature_fits transfer.countersignature
  refuse (nil_or_zero transfer.owner) invalid_owner_or_registrant
  check_payments c transfer.version testnet transfer.payments

unfoldable pub share_check : BitmarkShare → Result (Unit {0})
share_check share = do
  signature_fits share.signature
  refuse (ltb share.quantity 1) share_quantity_too_small

unfoldable pub grant_check : ShareGrant → Result (Unit {0})
grant_check grant = do
  signature_fits grant.signature
  signature_fits grant.countersignature
  refuse
      (is_nil grant.owner
        || (is_nil grant.recipient
            || (nil_or_zero grant.owner
                || (nil_or_zero grant.recipient || same_pointer grant.owner grant.recipient))))
      invalid_owner_or_registrant
  refuse (ltb grant.quantity 1) share_quantity_too_small

unfoldable pub swap_check : ShareSwap → Result (Unit {0})
swap_check swap = do
  signature_fits swap.signature
  signature_fits swap.countersignature
  refuse
      (is_nil swap.owner_one
        || (is_nil swap.owner_two
            || (nil_or_zero swap.owner_one
                || (nil_or_zero swap.owner_two || same_pointer swap.owner_one swap.owner_two))))
      invalid_owner_or_registrant
  refuse (bytes_eq swap.share_id_one swap.share_id_two) share_ids_cannot_be_identical
  refuse (ltb swap.quantity_one 1 || ltb swap.quantity_two 1) share_quantity_too_small
