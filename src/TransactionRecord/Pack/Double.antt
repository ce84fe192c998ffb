-- ===== src/TransactionRecord/Pack/Double.antt =====
-- transactionrecord/pack.go: Pack of the records with a countersignature.
use bitmarkd.Common.{List, ℕ, not, ◌||◌}
use bitmarkd.Account.{Account, is_testing, check_signature}
use bitmarkd.Crypto.{Crypto}
use bitmarkd.Currency.Map
use bitmarkd.Fault.{invalid_owner_or_registrant}
use bitmarkd.Go.{Result, ok, ◌>>=◌, ◌>>◌, refuse, Pointer, deref, same_pointer}
use bitmarkd.TransactionRecord.Types.{
  BitmarkTransferCountersigned, BlockOwnerTransfer, ShareGrant, ShareSwap,
  bitmark_transfer_countersigned_tag, block_owner_transfer_tag, share_grant_tag, share_swap_tag,
}
use bitmarkd.TransactionRecord.Check.{
  countersigned_check, owner_transfer_check, grant_check, swap_check, nil_or_zero,
}
use bitmarkd.TransactionRecord.Append.{
  create_packed, append_bytes, append_account, append_uint64, append_escrow, Packing, packed,
  prepare, signed, valid_address,
}

-- The end of each Pack: the first account signs the message, and the second one the message with
-- the signature behind it.
unfoldable pub sign_twice : Crypto → List ℕ → List ℕ → Account × Account × List ℕ → Packing
sign_twice c signature countersignature (one, two, message) =
    let message' = append_bytes message signature in
    let countersigned =
      signed message' (check_signature c two message' countersignature)
        (packed (append_bytes message' countersignature)) in
    signed message (check_signature c one message signature) countersigned

-- Up to its signatures each Pack yields the two signing accounts with the message.
unfoldable pub countersigned_message :
    Crypto → BitmarkTransferCountersigned → Pointer Account → Result (Account × Account × List ℕ)
countersigned_message c transfer address = do
  a ← valid_address address
  countersigned_check transfer
  let message = create_packed bitmark_transfer_countersigned_tag
  let message = append_bytes message transfer.link
  message ← append_escrow c message transfer.escrow (is_testing a)
  owner ← deref transfer.owner
  ok (a, owner, append_account message owner)

unfoldable pub countersigned_pack :
    Crypto → BitmarkTransferCountersigned → Pointer Account → Packing
unfolding countersigned_message sign_twice
countersigned_pack c transfer address =
    prepare (countersigned_message c transfer address)
      (sign_twice c transfer.signature transfer.countersignature)

unfoldable pub owner_transfer_message :
    Crypto → BlockOwnerTransfer → Pointer Account → Result (Account × Account × List ℕ)
owner_transfer_message c transfer address = do
  a ← valid_address address
  owner_transfer_check c transfer (is_testing a)
  packed_payments ← Map.pack c transfer.payments (is_testing a)
  let message = create_packed block_owner_transfer_tag
  let message = append_bytes message transfer.link
  message ← append_escrow c message transfer.escrow (is_testing a)
  owner ← deref transfer.owner
  let message = append_uint64 message transfer.version
  let message = append_bytes message packed_payments
  ok (a, owner, append_account message owner)

unfoldable pub owner_transfer_pack : Crypto → BlockOwnerTransfer → Pointer Account → Packing
unfolding owner_transfer_message sign_twice
owner_transfer_pack c transfer address =
    prepare (owner_transfer_message c transfer address)
      (sign_twice c transfer.signature transfer.countersignature)

-- The address must be the very pointer of the record's owner.
unfoldable pub grant_message : ShareGrant → Pointer Account → Result (Account × Account × List ℕ)
grant_message grant address = do
  refuse (nil_or_zero address || not (same_pointer address grant.owner)) invalid_owner_or_registrant
  grant_check grant
  owner ← deref grant.owner
  recipient ← deref grant.recipient
  let message = create_packed share_grant_tag
  let message = append_bytes message grant.share_id
  let message = append_uint64 message grant.quantity
  let message = append_account message owner
  let message = append_account message recipient
  let message = append_uint64 message grant.before_block
  ok (owner, recipient, message)

unfoldable pub grant_pack : Crypto → ShareGrant → Pointer Account → Packing
unfolding grant_message sign_twice
grant_pack c grant address =
    prepare (grant_message grant address) (sign_twice c grant.signature grant.countersignature)

unfoldable pub swap_message : ShareSwap → Pointer Account → Result (Account × Account × List ℕ)
swap_message swap address = do
  refuse (nil_or_zero address || not (same_pointer address swap.owner_one))
      invalid_owner_or_registrant
  swap_check swap
  owner_one ← deref swap.owner_one
  owner_two ← deref swap.owner_two
  let message = create_packed share_swap_tag
  let message = append_bytes message swap.share_id_one
  let message = append_uint64 message swap.quantity_one
  let message = append_account message owner_one
  let message = append_bytes message swap.share_id_two
  let message = append_uint64 message swap.quantity_two
  let message = append_account message owner_two
  let message = append_uint64 message swap.before_block
  ok (owner_one, owner_two, message)

unfoldable pub swap_pack : Crypto → ShareSwap → Pointer Account → Packing
unfolding swap_message sign_twice
swap_pack c swap address =
    prepare (swap_message swap address) (sign_twice c swap.signature swap.countersignature)
