-- ===== src/TransactionRecord/Pack/Single.antt =====
-- transactionrecord/pack.go: Pack of the records with one signature.
use bitmarkd.Common.{List, ℕ}
use bitmarkd.Account.{Account, is_testing, check_signature}
use bitmarkd.Crypto.{Crypto}
use bitmarkd.Currency.Map
use bitmarkd.Currency.Validate.{validate_address}
use bitmarkd.Go.{Result, ok, ◌>>=◌, ◌>>◌, Pointer, deref}
use bitmarkd.TransactionRecord.Types.{
  OldBaseData, AssetData, BitmarkIssue, BitmarkTransferUnratified, BlockFoundation, BitmarkShare,
  base_data_tag, asset_data_tag, bitmark_issue_tag, bitmark_transfer_unratified_tag,
  block_foundation_tag, bitmark_share_tag,
}
use bitmarkd.TransactionRecord.Check.{
  base_data_check, asset_data_check, issue_check, unratified_check, foundation_check, share_check,
}
use bitmarkd.TransactionRecord.Append.{
  create_packed, append_bytes, append_string, append_account, append_uint64, append_escrow, Packing,
  packed, prepare, signed, valid_address,
}

-- The end of each Pack: the signature is checked against the message and joins it.
unfoldable pub sign : Crypto → List ℕ → Account × List ℕ → Packing
sign c signature (address, message) =
    signed message (check_signature c address message signature)
      (packed (append_bytes message signature))

-- Up to its signature each Pack yields the signing account with the message.
unfoldable pub base_data_message :
    Crypto → OldBaseData → Pointer Account → Result (Account × List ℕ)
base_data_message c base_data address = do
  a ← valid_address address
  base_data_check base_data
  validate_address c base_data.currency base_data.payment_address (is_testing a)
  owner ← deref base_data.owner
  let message = create_packed base_data_tag
  let message = append_uint64 message base_data.currency
  let message = append_string message base_data.payment_address
  let message = append_account message owner
  let message = append_uint64 message base_data.nonce
  ok (a, message)

unfoldable pub base_data_pack : Crypto → OldBaseData → Pointer Account → Packing
unfolding base_data_message sign
base_data_pack c base_data address =
    prepare (base_data_message c base_data address) (sign c base_data.signature)

unfoldable pub asset_data_message : AssetData → Pointer Account → Result (Account × List ℕ)
asset_data_message asset address = do
  a ← valid_address address
  asset_data_check asset
  registrant ← deref asset.registrant
  let message = create_packed asset_data_tag
  let message = append_string message asset.name
  let message = append_string message asset.fingerprint
  let message = append_string message asset.metadata
  let message = append_account message registrant
  ok (a, message)

unfoldable pub asset_data_pack : Crypto → AssetData → Pointer Account → Packing
unfolding asset_data_message sign
asset_data_pack c asset address =
    prepare (asset_data_message asset address) (sign c asset.signature)

unfoldable pub issue_message : BitmarkIssue → Pointer Account → Result (Account × List ℕ)
issue_message issue address = do
  a ← valid_address address
  issue_check issue
  owner ← deref issue.owner
  let message = create_packed bitmark_issue_tag
  let message = append_bytes message issue.asset_id
  let message = append_account message owner
  let message = append_uint64 message issue.nonce
  ok (a, message)

unfoldable pub issue_pack : Crypto → BitmarkIssue → Pointer Account → Packing
unfolding issue_message sign
issue_pack c issue address = prepare (issue_message issue address) (sign c issue.signature)

unfoldable pub unratified_message :
    Crypto → BitmarkTransferUnratified → Pointer Account → Result (Account × List ℕ)
unratified_message c transfer address = do
  a ← valid_address address
  unratified_check transfer
  let message = create_packed bitmark_transfer_unratified_tag
  let message = append_bytes message transfer.link
  message ← append_escrow c message transfer.escrow (is_testing a)
  owner ← deref transfer.owner
  ok (a, append_account message owner)

unfoldable pub unratified_pack : Crypto → BitmarkTransferUnratified → Pointer Account → Packing
unfolding unratified_message sign
unratified_pack c transfer address =
    prepare (unratified_message c transfer address) (sign c transfer.signature)

unfoldable pub foundation_message :
    Crypto → BlockFoundation → Pointer Account → Result (Account × List ℕ)
foundation_message c foundation address = do
  a ← valid_address address
  foundation_check c foundation (is_testing a)
  packed_payments ← Map.pack c foundation.payments (is_testing a)
  owner ← deref foundation.owner
  let message = create_packed block_foundation_tag
  let message = append_uint64 message foundation.version
  let message = append_bytes message packed_payments
  let message = append_account message owner
  let message = append_uint64 message foundation.nonce
  ok (a, message)

unfoldable pub foundation_pack : Crypto → BlockFoundation → Pointer Account → Packing
unfolding foundation_message sign
foundation_pack c foundation address =
    prepare (foundation_message c foundation address) (sign c foundation.signature)

unfoldable pub share_message : BitmarkShare → Pointer Account → Result (Account × List ℕ)
share_message share address = do
  a ← valid_address address
  share_check share
  let message = create_packed bitmark_share_tag
  let message = append_bytes message share.link
  let message = append_uint64 message share.quantity
  ok (a, message)

unfoldable pub share_pack : Crypto → BitmarkShare → Pointer Account → Packing
unfolding share_message sign
share_pack c share address = prepare (share_message share address) (sign c share.signature)
