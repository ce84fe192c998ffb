-- ===== src/TransactionRecord/Unpack.antt =====
-- transactionrecord/unpack.go: Packed.Unpack.
pub mod Single
pub mod Double
use bitmarkd.Common.{ℕ, Bool, List, ◌==◌, if◌then◌else◌}
use bitmarkd.Common.Int.{pos}
use bitmarkd.Crypto.{Crypto}
use bitmarkd.Fault.{not_transaction_pack}
use bitmarkd.Go.{Result, ok, err, panicked, exhausted, refuse, Slice}
use bitmarkd.TransactionRecord.Types.{
  Transaction, old_base_data, asset_data, bitmark_issue, bitmark_transfer_unratified,
  bitmark_transfer_countersigned, block_foundation, block_owner_transfer, bitmark_share,
  share_grant, share_swap, base_data_tag, asset_data_tag, bitmark_issue_tag,
  bitmark_transfer_unratified_tag, bitmark_transfer_countersigned_tag, block_foundation_tag,
  block_owner_transfer_tag, bitmark_share_tag, share_grant_tag, share_swap_tag,
}
use bitmarkd.TransactionRecord.Reader.{Reader, continue, ◌>>=◌, ◌>>◌, lift, pure, advance}
use bitmarkd.TransactionRecord.Unpack.Single.{
  base_data_unpack, asset_data_unpack, issue_unpack, unratified_unpack, foundation_unpack,
  share_unpack,
}
use bitmarkd.TransactionRecord.Unpack.Double.{
  countersigned_unpack, owner_transfer_unpack, grant_unpack, swap_unpack,
}
use bitmarkd.Util.Varint.{clipped_varint64}

-- The record type at the front of the record.
unfoldable pub read_type : Reader ℕ
read_type s n =
    let (record_type, offset) = clipped_varint64 s.visible (pos 1) (pos 8192) in
    if offset == 0 then err not_transaction_pack else ok (record_type, offset)

-- The switch on the record type.
unfoldable pub unpack_record : Crypto → ℕ → Bool → ℕ → Reader Transaction
unpack_record c heap testnet record_type =
    if record_type == base_data_tag
    then (do r ← base_data_unpack heap testnet; pure (old_base_data r))
    else if record_type == asset_data_tag
    then (do r ← asset_data_unpack heap testnet; pure (asset_data r))
    else if record_type == bitmark_issue_tag
    then (do r ← issue_unpack heap testnet; pure (bitmark_issue r))
    else if record_type == bitmark_transfer_unratified_tag
    then (do r ← unratified_unpack heap testnet; pure (bitmark_transfer_unratified r))
    else if record_type == bitmark_transfer_countersigned_tag
    then (do r ← countersigned_unpack heap testnet; pure (bitmark_transfer_countersigned r))
    else if record_type == block_foundation_tag
    then (do r ← foundation_unpack c heap testnet; pure (block_foundation r))
    else if record_type == block_owner_transfer_tag
    then (do r ← owner_transfer_unpack c heap testnet; pure (block_owner_transfer r))
    else if record_type == bitmark_share_tag
    then (do r ← share_unpack; pure (bitmark_share r))
    else if record_type == share_grant_tag
    then (do r ← grant_unpack heap testnet; pure (share_grant r))
    else if record_type == share_swap_tag
    then (do r ← swap_unpack heap testnet; pure (share_swap r))
    else lift (err not_transaction_pack)

-- The deferred recover: a panic becomes an error.
abbrev pub recover {ℓ} : {A : Type ℓ} → Result A → Result A
recover (ok a) = ok a
recover (err e) = err e
recover panicked = err not_transaction_pack
recover exhausted = exhausted

-- The record and the number of bytes that it takes.
unfoldable pub unpack : Crypto → ℕ → Slice → Bool → Result (Transaction × ℕ)
unfolding read_type unpack_record
unpack c heap packed testnet = recover ((read_type >>= unpack_record c heap testnet) packed 0)
