-- ===== src/Ownership/Change.antt =====
-- Transfer and Share from a state with the invariant.
use bitmarkd.Common.{
  ℕ, ◌+◌, ◌<◌, ◌^◌, ◌≡◌, sym, ap, subst, ◌∷◌, ◌∙◌, false, ◌==◌, List, ◌++◌, length, none, some,
  bytes_eq,
}
use bitmarkd.Go.{ok}
use bitmarkd.Account.{Account, account_bytes}
use bitmarkd.Storage.External.{External, IsExternal}
use bitmarkd.Storage.Access.{AccessData}
use bitmarkd.Storage.Handle.{shares, share_quantity}
use bitmarkd.Storage.Final.{final}
use bitmarkd.Go.Binary.{be_bytes}
use bitmarkd.Ownership.Data.{
  AssetOwnerData, ShareOwnerData, OwnerData, asset_owner_data, block_owner_data, share_owner_data,
}
use bitmarkd.Ownership.Transfer.{
  create, transfer, share, replace_entry, renew, delete_entry, add_share,
}
use bitmarkd.Ownership.Entries.{
  index_of, next_of, counter, index_of-add_share, count_of-add_share, data_of-add_share,
  shares-add_share, share_quantity-add_share,
}
use bitmarkd.Ownership.Valid.{create-IsOwnership, add_share-IsOwnership}
use bitmarkd.Ownership.Moves.{
  moved, IsShare, is_share, Held, Moved, transfer_with-Held, create-Moved, delete_entry-Deleted,
  different,
}

-- The asset of a share, and the share of an asset, from a block on.
pub to_asset : ℕ → ShareOwnerData → OwnerData
to_asset block_number a = asset_owner_data (record {
  transfer_block_number = block_number;
  issue_tx_id = a.issue_tx_id;
  issue_block_number = a.issue_block_number;
  asset_id = a.asset_id;
})

pub to_share : ℕ → AssetOwnerData → OwnerData
to_share block_number a = share_owner_data (record {
  transfer_block_number = block_number;
  issue_tx_id = a.issue_tx_id;
  issue_block_number = a.issue_block_number;
  asset_id = a.asset_id;
})

module _ {x : External} (laws : IsExternal x) where
  -- The entry of a new owner, made where the entry of the current one was deleted.
  delete-create-Moved :
      (previous tx_id : List ℕ) (current new : Account) (data' next' : OwnerData) (d : AccessData x)
      (h : Held previous current data' d)
      → length tx_id ≡ 32
      → index_of d (account_bytes new ++ tx_id) ≡ none
      → next_of d (account_bytes new) + 1 < 2 ^ 64
      → bytes_eq tx_id previous ≡ false
      → (d' : AccessData x) × (create tx_id next' new
            (delete_entry previous (account_bytes current) h.count d)
          ≡ ok d')
        × Moved previous tx_id current new next' d'
  delete-create-Moved previous tx_id current new data' next' d h size fresh room other =
      let e = delete_entry-Deleted laws previous tx_id current new data' d h fresh room in
      create-Moved laws previous tx_id current new next' _ e.valid size e.fresh e.room
        (different (account_bytes new ++ tx_id) (account_bytes current ++ previous) h.count
          (index_of d) fresh h.held)
        other e.gone e.erased

  -- From a state with the ownership invariant in which the current owner has the previous
  -- transaction, of 32 bytes, as an asset or as a block, with fields in the ranges of their types,
  -- Transfer to a new owner, under another transaction, of 32 bytes, that the new owner does not
  -- have yet, below the last count of that owner, returns without a panic: the invariant holds
  -- again, the new owner has the new transaction in both indexes, with the same owner data from the
  -- block of the transfer, and neither the entry of the current owner nor the owner data of the
  -- previous transaction is left.
  pub transfer-Moved :
      (previous tx_id : List ℕ) (block : ℕ) (current new : Account) (data' : OwnerData)
      (d : AccessData x)
      → Held previous current data' d
      → (IsShare data' → ⊥)
      → length tx_id ≡ 32
      → index_of d (account_bytes new ++ tx_id) ≡ none
      → next_of d (account_bytes new) + 1 < 2 ^ 64
      → bytes_eq tx_id previous ≡ false
      → (d' : AccessData x) × (transfer previous tx_id block current (some new) d ≡ ok d')
        × Moved previous tx_id current new (moved block data') d'
  unfolding transfer replace_entry renew moved
  transfer-Moved previous tx_id block current new (asset_owner_data a) d h kind size fresh room
        other =
      let data' = asset_owner_data a in
      let (d', made, m) =
        delete-create-Moved previous tx_id current new data' (moved block data') d h size fresh room
          other in
      (d', transfer_with-Held laws previous tx_id block current (some new) 0 data' d h ∙ made, m)
  transfer-Moved previous tx_id block current new (block_owner_data b) d h kind size fresh room
        other =
      let data' = block_owner_data b in
      let (d', made, m) =
        delete-create-Moved previous tx_id current new data' (moved block data') d h size fresh room
          other in
      (d', transfer_with-Held laws previous tx_id block current (some new) 0 data' d h ∙ made, m)
  transfer-Moved previous tx_id block current new (share_owner_data a) d h kind size fresh room
        other =
      elim (kind (is_share a)) [ ]

  -- From a state with the ownership invariant in which the current owner has the previous
  -- transaction, of 32 bytes, as a share, with fields in the ranges of their types, Transfer, under
  -- another transaction, of 32 bytes, that the current owner does not have yet, below the last
  -- count of that owner, returns without a panic and gives it back to the current owner as an
  -- asset, whatever new owner is named: the invariant holds again, the current owner has the new
  -- transaction in both indexes, with the owner data of the asset from the block of the transfer,
  -- and neither its old entry nor the old owner data is left.
  pub transfer-share :
      (previous tx_id : List ℕ) (block : ℕ) (current new : Account) (a : ShareOwnerData)
      (d : AccessData x)
      → Held previous current (share_owner_data a) d
      → length tx_id ≡ 32
      → index_of d (account_bytes current ++ tx_id) ≡ none
      → next_of d (account_bytes current) + 1 < 2 ^ 64
      → bytes_eq tx_id previous ≡ false
      → (d' : AccessData x) × (transfer previous tx_id block current (some new) d ≡ ok d')
        × Moved previous tx_id current current (to_asset block a) d'
  unfolding transfer replace_entry renew to_asset
  transfer-share previous tx_id block current new a d h size fresh room other =
      let data' = share_owner_data a in
      let (d', made, m) =
        delete-create-Moved previous tx_id current current data' (to_asset block a) d h size fresh
          room other in
      (d', transfer_with-Held laws previous tx_id block current (some new) 0 data' d h ∙ made, m)

  -- From a state with the ownership invariant in which the current owner has the previous
  -- transaction, of 32 bytes, as an asset, with fields in the ranges of their types, Share of a
  -- quantity other than zero, under another transaction, of 32 bytes, that the current owner does
  -- not have yet, below the last count of that owner, returns without a panic: the invariant holds
  -- again, the same owner has the new transaction in both indexes, with the owner data of a share,
  -- neither its old entry nor the old owner data is left, and under the identifier of the issue,
  -- the pool Shares has the quantity with the new transaction, and the pool ShareQuantity has the
  -- quantity as the owner's.
  pub share-Moved :
      (previous tx_id : List ℕ) (block : ℕ) (current : Account) (quantity : ℕ) (a : AssetOwnerData)
      (d : AccessData x)
      → Held previous current (asset_owner_data a) d
      → (quantity == 0) ≡ false
      → length tx_id ≡ 32
      → index_of d (account_bytes current ++ tx_id) ≡ none
      → next_of d (account_bytes current) + 1 < 2 ^ 64
      → bytes_eq tx_id previous ≡ false
      → (d' : AccessData x) × (share previous tx_id block current quantity d ≡ ok d')
        × Moved previous tx_id current current (to_share block a) d'
        × (final (shares ∷ a.issue_tx_id) d' ≡ some (be_bytes 8 quantity ++ tx_id))
        × (final (share_quantity ∷ (account_bytes current ++ a.issue_tx_id)) d'
            ≡ some (be_bytes 8 quantity))
  unfolding share replace_entry renew to_share
  share-Moved previous tx_id block current quantity a d h some_quantity size fresh room other =
      let o = account_bytes current in
      let data' = asset_owner_data a in
      let e = delete_entry-Deleted laws previous tx_id current current data' d h fresh room in
      let deleted = delete_entry previous o h.count d in
      let id = a.issue_tx_id in
      let indexed = index_of-add_share id tx_id o quantity deleted in
      let (d', made, c) =
        create-IsOwnership laws tx_id (to_share block a) current
          (add_share id tx_id o quantity deleted)
          (add_share-IsOwnership laws id tx_id o quantity deleted e.valid) size
          (ap (λ f. f (o ++ tx_id)) indexed ∙ e.fresh)
          (subst (λ f. counter (f o) + 1 < 2 ^ 64)
            (sym (count_of-add_share id tx_id o quantity deleted)) e.room) in
      (
        d',
        transfer_with-Held laws previous tx_id block current none quantity data' d h
            ∙ rw some_quantity made,
        record {
          valid = c.valid;
          owned = c.owned;
          stored = c.stored;
          gone =
              c.others (o ++ previous)
                (different (o ++ tx_id) (o ++ previous) h.count (index_of d) fresh h.held)
              ∙ ap (λ f. f (o ++ previous)) indexed
              ∙ e.gone;
          erased =
              c.other_data previous other
              ∙ ap (λ f. f previous) (data_of-add_share id tx_id o quantity deleted)
              ∙ e.erased;
        },
        c.total id ∙ shares-add_share id tx_id o quantity deleted,
        c.balance (o ++ id) ∙ share_quantity-add_share id tx_id o quantity deleted,
      )
