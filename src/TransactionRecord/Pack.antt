-- ===== src/TransactionRecord/Pack.antt =====
-- transactionrecord/pack.go: Pack of each kind of record.
pub mod Single
pub mod Double
use bitmarkd.Account.{Account}
use bitmarkd.Crypto.{Crypto}
use bitmarkd.Go.{Pointer}
use bitmarkd.TransactionRecord.Types.{
  Transaction, old_base_data, asset_data, bitmark_issue, bitmark_transfer_unratified,
  bitmark_transfer_countersigned, block_foundation, block_owner_transfer, bitmark_share,
  share_grant, share_swap,
}
use bitmarkd.TransactionRecord.Append.{Packing}
use bitmarkd.TransactionRecord.Pack.Single.{
  base_data_pack, asset_data_pack, issue_pack, unratified_pack, foundation_pack, share_pack,
}
use bitmarkd.TransactionRecord.Pack.Double.{
  countersigned_pack, owner_transfer_pack, grant_pack, swap_pack,
}

-- The method Pack of the interface Transaction.
unfoldable pub pack : Crypto → Transaction → Pointer Account → Packing
pack c (old_base_data r) address = base_data_pack c r address
pack c (asset_data r) address = asset_data_pack c r address
pack c (bitmark_issue r) address = issue_pack c r address
pack c (bitmark_transfer_unratified r) address = unratified_pack c r address
pack c (bitmark_transfer_countersigned r) address = countersigned_pack c r address
pack c (block_foundation r) address = foundation_pack c r address
pack c (block_owner_transfer r) address = owner_transfer_pack c r address
pack c (bitmark_share r) address = share_pack c r address
pack c (share_grant r) address = grant_pack c r address
pack c (share_swap r) address = swap_pack c r address
