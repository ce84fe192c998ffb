-- ===== src/Ownership/Owner.antt =====
-- ownership/transfer.go: OwnerOf, which reads the owner from the stored transaction itself.
use bitmarkd.Common.{ℕ, Bool, List, Option, none, some}
use bitmarkd.Crypto.{Crypto}
use bitmarkd.Go.{Result, ok, panicked, Pointer, ◌>>=◌}
use bitmarkd.Account.{Account}
use bitmarkd.Storage.External.{External}
use bitmarkd.Storage.Access.{AccessData}
use bitmarkd.Storage.Handle.{handle_get_nb, transactions}
use bitmarkd.TransactionRecord.Types.{
  Transaction, old_base_data, asset_data, bitmark_issue, bitmark_transfer_unratified,
  bitmark_transfer_countersigned, block_foundation, block_owner_transfer, bitmark_share,
  share_grant, share_swap,
}
use bitmarkd.TransactionRecord.Unpack.{unpack}
use bitmarkd.Ownership.Transfer.{or_panic}

-- The switch on the transaction. The other five kinds panic.
unfoldable pub owner_in : Transaction → Result (Pointer Account)
owner_in (bitmark_issue tx) = ok tx.owner
owner_in (bitmark_transfer_unratified tx) = ok tx.owner
owner_in (bitmark_transfer_countersigned tx) = ok tx.owner
owner_in (block_foundation tx) = ok tx.owner
owner_in (block_owner_transfer tx) = ok tx.owner
owner_in (old_base_data tx) = panicked
owner_in (asset_data tx) = panicked
owner_in (bitmark_share tx) = panicked
owner_in (share_grant tx) = panicked
owner_in (share_swap tx) = panicked

module _ (c : Crypto) (heap : ℕ) (testnet : Bool) (spare : List ℕ) where
  unfoldable pub owner_found : Option (ℕ × List ℕ) → Result (ℕ × Pointer Account)
  unfolding unpack owner_in
  owner_found none = ok (0, none)
  owner_found (some (block_number, packed)) = do
    (transaction, count) ←
        or_panic (unpack c heap (record { visible = packed; spare = spare }) testnet)
    owner ← owner_in transaction
    ok (block_number, owner)

  -- The capacity behind the value that the database returns is `spare`.
  unfoldable pub owner_of : {x : External} → List ℕ → AccessData x → Result (ℕ × Pointer Account)
  unfolding handle_get_nb owner_found
  owner_of tx_id trx = do found ← handle_get_nb transactions tx_id trx; owner_found found
