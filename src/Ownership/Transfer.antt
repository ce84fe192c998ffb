-- ===== src/Ownership/Transfer.antt =====
-- ownership/transfer.go: how a transaction of the storage makes and moves entries of owners.
use bitmarkd.Common.{
  ℕ, ◌+◌, ◌%◌, ◌^◌, Bool, true, false, List, ◌++◌, length, replicate, ◌==◌, not, ◌&&◌, Option, none,
  some, if◌then◌else◌,
}
use bitmarkd.Go.{Result, ok, err, panicked, exhausted, ◌>>=◌}
use bitmarkd.Go.Binary.{be_bytes, be_value}
use bitmarkd.Account.{Account, account_bytes}
use bitmarkd.Storage.External.{External}
use bitmarkd.Storage.Access.{AccessData}
use bitmarkd.Storage.Handle.{
  handle_put, handle_get, handle_remove, handle_has, owner_next_count, owner_list, owner_tx_index,
  owner_data, shares, share_quantity,
}
use bitmarkd.Ownership.Data.{
  OwnerData, asset_owner_data, block_owner_data, share_owner_data, pack_owner_data, get_owner_data,
}

abbrev pub found_or_panic {ℓ} : {A : Type ℓ} → Option A → Result A
found_or_panic none = panicked
found_or_panic (some value) = ok value

abbrev pub is_nil : Option Account → Bool
is_nil none = true
is_nil (some owner) = false

-- logger.Panic on an error.
abbrev pub or_panic {ℓ} : {A : Type ℓ} → Result A → Result A
or_panic (ok value) = ok value
or_panic (err fault) = panicked
or_panic panicked = panicked
or_panic exhausted = exhausted

-- The counter of an owner: zero when there is none; another length than 8 panics.
abbrev pub counted_from : Option (List ℕ) → Result (List ℕ)
counted_from none = ok (replicate 8 0)
counted_from (some count) = if not (8 == length count) then panicked else ok count

module _ {x : External} where
  unfoldable pub next_count : List ℕ → AccessData x → Result (List ℕ)
  next_count n_key trx = counted_from (handle_get owner_next_count n_key trx)

  -- The four records that are written for the counter `count`.
  unfoldable pub add_entry : List ℕ → OwnerData → List ℕ → List ℕ → AccessData x → AccessData x
  add_entry tx_id data' owner count trx =
      let counted =
        handle_put owner_next_count owner (be_bytes 8 ((be_value count + 1) % 2 ^ 64)) trx in
      let listed = handle_put owner_list (owner ++ count) tx_id counted in
      let indexed = handle_put owner_tx_index (owner ++ tx_id) count listed in
      handle_put owner_data tx_id (pack_owner_data data') indexed

  unfoldable pub create : List ℕ → OwnerData → Account → AccessData x → Result (AccessData x)
  create tx_id data' owner trx = do
    count ← next_count (account_bytes owner) trx
    ok (add_entry tx_id data' (account_bytes owner) count trx)

  unfoldable pub create_asset : List ℕ → ℕ → List ℕ → Account → AccessData x → Result (AccessData x)
  unfolding create
  create_asset issue_tx_id issue_block_number asset_id new_owner trx =
      create issue_tx_id
        (asset_owner_data (record {
          transfer_block_number = issue_block_number;
          issue_tx_id = issue_tx_id;
          issue_block_number = issue_block_number;
          asset_id = asset_id;
        }))
        new_owner trx

  unfoldable pub create_block : List ℕ → ℕ → Account → AccessData x → Result (AccessData x)
  unfolding create
  create_block issue_tx_id block_number new_owner trx =
      create issue_tx_id
        (block_owner_data (record {
          transfer_block_number = block_number;
          issue_tx_id = issue_tx_id;
          issue_block_number = block_number;
        }))
        new_owner trx

  -- The records of the current owner, deleted.
  unfoldable pub delete_entry : List ℕ → List ℕ → List ℕ → AccessData x → AccessData x
  delete_entry tx_id owner count trx =
      let unlisted = handle_remove owner_list (owner ++ count) trx in
      let unindexed = handle_remove owner_tx_index (owner ++ tx_id) unlisted in
      handle_remove owner_data tx_id unindexed

  -- The records of a new share: its total, and all of it to the creator.
  unfoldable pub add_share : List ℕ → List ℕ → List ℕ → ℕ → AccessData x → AccessData x
  add_share share_id tx_id owner quantity trx =
      let total = handle_put shares share_id (be_bytes 8 quantity ++ tx_id) trx in
      handle_put share_quantity (owner ++ share_id) (be_bytes 8 quantity) total

  -- The switch on the owner data. A new owner of none is a nil pointer, whose Bytes panics; it is
  -- not reached with quantity zero.
  unfoldable pub renew :
      OwnerData → List ℕ → ℕ → Account → Option Account → ℕ → AccessData x → Result (AccessData x)
  unfolding create
  renew (asset_owner_data a) tx_id block_number current new quantity trx =
      if not (quantity == 0)
      then create tx_id
          (share_owner_data (record {
            transfer_block_number = block_number;
            issue_tx_id = a.issue_tx_id;
            issue_block_number = a.issue_block_number;
            asset_id = a.asset_id;
          }))
          current (add_share a.issue_tx_id tx_id (account_bytes current) quantity trx)
      else elim new [
        | none ↦ panicked
        | some owner ↦
            create tx_id (asset_owner_data (record a { transfer_block_number = block_number }))
              owner trx
      ]
  renew (block_owner_data b) tx_id block_number current new quantity trx =
      if not (quantity == 0) then panicked else elim new [
        | none ↦ panicked
        | some owner ↦
            create tx_id (block_owner_data (record b { transfer_block_number = block_number }))
              owner trx
      ]
  renew (share_owner_data a) tx_id block_number current new quantity trx =
      if not (quantity == 0)
      then panicked
      else create tx_id
          (asset_owner_data (record {
            transfer_block_number = block_number;
            issue_tx_id = a.issue_tx_id;
            issue_block_number = a.issue_block_number;
            asset_id = a.asset_id;
          }))
          current trx

  -- After the two reads: the deletions, and what is written in their place.
  unfoldable pub replace_entry :
      OwnerData
      → List ℕ
      → List ℕ
      → List ℕ
      → ℕ
      → Account
      → Option Account
      → ℕ
      → AccessData x
      → Result (AccessData x)
  unfolding delete_entry renew
  replace_entry data' count previous_tx_id transfer_tx_id block_number current new quantity trx =
      let deleted = delete_entry previous_tx_id (account_bytes current) count trx in
      if is_nil new && (quantity == 0)
      then ok deleted
      else renew data' transfer_tx_id block_number current new quantity deleted

  -- The internal `transfer`.
  unfoldable pub transfer_with :
      List ℕ → List ℕ → ℕ → Account → Option Account → ℕ → AccessData x → Result (AccessData x)
  unfolding get_owner_data replace_entry
  transfer_with previous_tx_id transfer_tx_id block_number current new quantity trx = do
    count ← found_or_panic (handle_get owner_tx_index (account_bytes current ++ previous_tx_id) trx)
    data' ← or_panic (get_owner_data previous_tx_id trx)
    replace_entry data' count previous_tx_id transfer_tx_id block_number current new quantity trx

  unfoldable pub transfer :
      List ℕ → List ℕ → ℕ → Account → Option Account → AccessData x → Result (AccessData x)
  unfolding transfer_with
  transfer previous_tx_id transfer_tx_id block_number current new trx =
      transfer_with previous_tx_id transfer_tx_id block_number current new 0 trx

  unfoldable pub share : List ℕ → List ℕ → ℕ → Account → ℕ → AccessData x → Result (AccessData x)
  unfolding transfer_with
  share previous_tx_id transfer_tx_id block_number current balance trx =
      transfer_with previous_tx_id transfer_tx_id block_number current none balance trx

  -- With a transaction, and the pool OwnerTxIndex.
  unfoldable pub currently_owns : Account → List ℕ → AccessData x → Bool
  currently_owns owner tx_id trx = handle_has owner_tx_index (account_bytes owner ++ tx_id) trx
