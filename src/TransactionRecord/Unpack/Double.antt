-- ===== src/TransactionRecord/Unpack/Double.antt =====
-- transactionrecord/unpack.go: the cases of the switch for the records with a countersignature.
-- `heap` is the first place that is free for the accounts that the call allocates.
use bitmarkd.Common.{ℕ, ◌+◌, Bool}
use bitmarkd.Crypto.{Crypto}
use bitmarkd.TransactionRecord.Types.{
  BitmarkTransferCountersigned, BlockOwnerTransfer, ShareGrant, ShareSwap,
}
use bitmarkd.TransactionRecord.Check.{
  countersigned_check, owner_transfer_check, grant_check, swap_check,
}
use bitmarkd.TransactionRecord.Reader.{
  Reader, ◌>>=◌, ◌>>◌, lift, pure, read_uint64, read_bytes, read_digest, read_account, read_escrow,
  read_version, read_payments,
}

unfoldable pub countersigned_unpack : ℕ → Bool → Reader BitmarkTransferCountersigned
countersigned_unpack heap testnet = do
  link ← read_digest
  escrow ← read_escrow
  owner ← read_account heap testnet
  signature ← read_bytes
  countersignature ← read_bytes
  let r : BitmarkTransferCountersigned = record {
    link = link;
    escrow = escrow;
    owner = owner;
    signature = signature;
    countersignature = countersignature;
  }
  lift (countersigned_check r)
  pure r

unfoldable pub owner_transfer_unpack : Crypto → ℕ → Bool → Reader BlockOwnerTransfer
owner_transfer_unpack c heap testnet = do
  link ← read_digest
  escrow ← read_escrow
  version ← read_version
  payments ← read_payments c version testnet
  owner ← read_account heap testnet
  signature ← read_bytes
  countersignature ← read_bytes
  let r : BlockOwnerTransfer = record {
    link = link;
    escrow = escrow;
    version = version;
    payments = payments;
    owner = owner;
    signature = signature;
    countersignature = countersignature;
  }
  lift (owner_transfer_check c r testnet)
  pure r

unfoldable pub grant_unpack : ℕ → Bool → Reader ShareGrant
grant_unpack heap testnet = do
  share_id ← read_digest
  quantity ← read_uint64
  owner ← read_account heap testnet
  recipient ← read_account (heap + 1) testnet
  before_block ← read_uint64
  signature ← read_bytes
  countersignature ← read_bytes
  let r : ShareGrant = record {
    share_id = share_id;
    quantity = quantity;
    owner = owner;
    recipient = recipient;
    before_block = before_block;
    signature = signature;
    countersignature = countersignature;
  }
  lift (grant_check r)
  pure r

unfoldable pub swap_unpack : ℕ → Bool → Reader ShareSwap
swap_unpack heap testnet = do
  share_id_one ← read_digest
  quantity_one ← read_uint64
  owner_one ← read_account heap testnet
  share_id_two ← read_digest
  quantity_two ← read_uint64
  owner_two ← read_account (heap + 1) testnet
  before_block ← read_uint64
  signature ← read_bytes
  countersignature ← read_bytes
  let r : ShareSwap = record {
    share_id_one = share_id_one;
    quantity_one = quantity_one;
    owner_one = owner_one;
    share_id_two = share_id_two;
    quantity_two = quantity_two;
    owner_two = owner_two;
    before_block = before_block;
    signature = signature;
    countersignature = countersignature;
  }
  lift (swap_check r)
  pure r
