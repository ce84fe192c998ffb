-- ===== src/TransactionRecord/Types.antt =====
-- transactionrecord/transaction.go: the ten kinds of record.
-- A text, a digest and a signature are lists of bytes; a uint64 is a number below 2 ^ 64.
use bitmarkd.Common.{ℕ, List, ◌==◌, if◌then◌else◌, Option}
use bitmarkd.Account.{Account}
use bitmarkd.Currency.{Currency}
use bitmarkd.Currency.Map.{Map}
use bitmarkd.Go.{Pointer}
use bitmarkd.Util.Varint.{from_varint64}

-- TagType, from NullTag on.
abbrev pub null_tag : ℕ
null_tag = 0

abbrev pub base_data_tag : ℕ
base_data_tag = 1

abbrev pub asset_data_tag : ℕ
asset_data_tag = 2

abbrev pub bitmark_issue_tag : ℕ
bitmark_issue_tag = 3

abbrev pub bitmark_transfer_unratified_tag : ℕ
bitmark_transfer_unratified_tag = 4

abbrev pub bitmark_transfer_countersigned_tag : ℕ
bitmark_transfer_countersigned_tag = 5

abbrev pub block_foundation_tag : ℕ
block_foundation_tag = 6

abbrev pub block_owner_transfer_tag : ℕ
block_owner_transfer_tag = 7

abbrev pub bitmark_share_tag : ℕ
bitmark_share_tag = 8

abbrev pub share_grant_tag : ℕ
share_grant_tag = 9

abbrev pub share_swap_tag : ℕ
share_swap_tag = 10

-- Packed.Type: the code of the record type, NullTag if there is none.
unfoldable pub packed_type : List ℕ → ℕ
packed_type record_bytes =
    if (from_varint64 record_bytes).1 == 0 then null_tag else (from_varint64 record_bytes).0

pub record OldBaseData : Type 0 where
  pub currency : Currency
  pub payment_address : List ℕ
  pub owner : Pointer Account
  pub nonce : ℕ
  pub signature : List ℕ

pub record AssetData : Type 0 where
  pub name : List ℕ
  pub fingerprint : List ℕ
  pub metadata : List ℕ
  pub registrant : Pointer Account
  pub signature : List ℕ

pub record BitmarkIssue : Type 0 where
  pub asset_id : List ℕ
  pub owner : Pointer Account
  pub nonce : ℕ
  pub signature : List ℕ

pub record Payment : Type 0 where
  pub currency : Currency
  pub address : List ℕ
  pub amount : ℕ

-- Escrow is a pointer that is only compared with nil.
pub record BitmarkTransferUnratified : Type 0 where
  pub link : List ℕ
  pub escrow : Option Payment
  pub owner : Pointer Account
  pub signature : List ℕ

pub record BitmarkTransferCountersigned : Type 0 where
  pub link : List ℕ
  pub escrow : Option Payment
  pub owner : Pointer Account
  pub signature : List ℕ
  pub countersignature : List ℕ

pub record BlockFoundation : Type 0 where
  pub version : ℕ
  pub payments : Map
  pub owner : Pointer Account
  pub nonce : ℕ
  pub signature : List ℕ

pub record BlockOwnerTransfer : Type 0 where
  pub link : List ℕ
  pub escrow : Option Payment
  pub version : ℕ
  pub payments : Map
  pub owner : Pointer Account
  pub signature : List ℕ
  pub countersignature : List ℕ

pub record BitmarkShare : Type 0 where
  pub link : List ℕ
  pub quantity : ℕ
  pub signature : List ℕ

pub record ShareGrant : Type 0 where
  pub share_id : List ℕ
  pub quantity : ℕ
  pub owner : Pointer Account
  pub recipient : Pointer Account
  pub before_block : ℕ
  pub signature : List ℕ
  pub countersignature : List ℕ

pub record ShareSwap : Type 0 where
  pub share_id_one : List ℕ
  pub quantity_one : ℕ
  pub owner_one : Pointer Account
  pub share_id_two : List ℕ
  pub quantity_two : ℕ
  pub owner_two : Pointer Account
  pub before_block : ℕ
  pub signature : List ℕ
  pub countersignature : List ℕ

-- The interface Transaction, with the types that implement it.
pub data Transaction : Type 0 where
  old_base_data : OldBaseData → Transaction
  asset_data : AssetData → Transaction
  bitmark_issue : BitmarkIssue → Transaction
  bitmark_transfer_unratified : BitmarkTransferUnratified → Transaction
  bitmark_transfer_countersigned : BitmarkTransferCountersigned → Transaction
  block_foundation : BlockFoundation → Transaction
  block_owner_transfer : BlockOwnerTransfer → Transaction
  bitmark_share : BitmarkShare → Transaction
  share_grant : ShareGrant → Transaction
  share_swap : ShareSwap → Transaction
