-- ===== src/TransactionRecord/Unpack/Single.antt =====
-- transactionrecord/unpack.go: the cases of the switch for the records with one signature.
-- `heap` is the first place that is free for the accounts that the call allocates.
use bitmarkd.Common.{ℕ, Bool, ◌==◌, List}
use bitmarkd.Common.Int.{pos}
use bitmarkd.Crypto.{Crypto}
use bitmarkd.Fault.{not_transaction_pack}
use bitmarkd.Go.{refuse}
use bitmarkd.TransactionRecord.Types.{
  OldBaseData, AssetData, BitmarkIssue, BitmarkTransferUnratified, BlockFoundation, BitmarkShare,
}
use bitmarkd.TransactionRecord.Check.{
  base_data_check, asset_data_check, issue_check, unratified_check, foundation_check, share_check,
}
use bitmarkd.TransactionRecord.Reader.{
  Reader, ◌>>=◌, ◌>>◌, lift, pure, advance, remainder, read_uint64, read_range, read_bytes,
  read_digest, read_asset_id, read_account, read_currency, read_escrow, read_version, read_payments,
}
use bitmarkd.Util.Varint.{clipped_varint64}

unfoldable pub base_data_unpack : ℕ → Bool → Reader OldBaseData
base_data_unpack heap testnet = do
  currency ← read_currency
  payment_address ← read_bytes
  owner ← read_account heap testnet
  nonce ← read_uint64
  signature ← read_bytes
  let r : OldBaseData = record {
    currency = currency;
    payment_address = payment_address;
    owner = owner;
    nonce = nonce;
    signature = signature;
  }
  lift (base_data_check r)
  pure r

-- The offset of the name is not held against 0.
unfoldable pub read_name : Reader (List ℕ)
unfolding remainder read_range
read_name = do
  buffer ← remainder
  let (name_length, name_offset) = clipped_varint64 buffer (pos 0) (pos 8192)
  advance name_offset
  name ← read_range name_length
  pure name.visible

-- A text that may be empty.
unfoldable pub read_metadata : Reader (List ℕ)
unfolding remainder read_range
read_metadata = do
  buffer ← remainder
  let (metadata_length, metadata_offset) = clipped_varint64 buffer (pos 0) (pos 8192)
  lift (refuse (metadata_offset == 0) not_transaction_pack)
  advance metadata_offset
  metadata ← read_range metadata_length
  pure metadata.visible

unfoldable pub asset_data_unpack : ℕ → Bool → Reader AssetData
asset_data_unpack heap testnet = do
  name ← read_name
  fingerprint ← read_bytes
  metadata ← read_metadata
  registrant ← read_account heap testnet
  signature ← read_bytes
  let r : AssetData = record {
    name = name;
    fingerprint = fingerprint;
    metadata = metadata;
    registrant = registrant;
    signature = signature;
  }
  lift (asset_data_check r)
  pure r

unfoldable pub issue_unpack : ℕ → Bool → Reader BitmarkIssue
issue_unpack heap testnet = do
  asset_id ← read_asset_id
  owner ← read_account heap testnet
  nonce ← read_uint64
  signature ← read_bytes
  let r : BitmarkIssue = record {
    asset_id = asset_id;
    owner = owner;
    nonce = nonce;
    signature = signature;
  }
  lift (issue_check r)
  pure r

unfoldable pub unratified_unpack : ℕ → Bool → Reader BitmarkTransferUnratified
unratified_unpack heap testnet = do
  link ← read_digest
  escrow ← read_escrow
  owner ← read_account heap testnet
  signature ← read_bytes
  let r : BitmarkTransferUnratified = record {
    link = link;
    escrow = escrow;
    owner = owner;
    signature = signature;
  }
  lift (unratified_check r)
  pure r

unfoldable pub foundation_unpack : Crypto → ℕ → Bool → Reader BlockFoundation
foundation_unpack c heap testnet = do
  version ← read_version
  payments ← read_payments c version testnet
  owner ← read_account heap testnet
  nonce ← read_uint64
  signature ← read_bytes
  let r : BlockFoundation = record {
    version = version;
    payments = payments;
    owner = owner;
    nonce = nonce;
    signature = signature;
  }
  lift (foundation_check c r testnet)
  pure r

unfoldable pub share_unpack : Reader BitmarkShare
share_unpack = do
  link ← read_digest
  quantity ← read_uint64
  signature ← read_bytes
  let r : BitmarkShare = record { link = link; quantity = quantity; signature = signature }
  lift (share_check r)
  pure r
