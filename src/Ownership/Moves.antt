-- ===== src/Ownership/Moves.antt =====
-- What a transfer and a share do to the records of the owners.
use bitmarkd.Common.{
  ℕ, ◌+◌, ◌<◌, ◌^◌, ◌≡◌, refl, sym, ap, subst, ◌∙◌, false, List, ◌∷◌, ◌++◌, length, Option, none,
  some, inl, inr, bytes_eq,
}
use bitmarkd.Go.{ok}
use bitmarkd.Account.{Account, account_bytes}
use bitmarkd.Storage.External.{External, IsExternal}
use bitmarkd.Storage.Access.{AccessData}
use bitmarkd.Storage.Handle.{handle_get, owner_tx_index, owner_data}
use bitmarkd.Storage.Final.{get-final}
use bitmarkd.Ownership.Data.{
  OwnerData, asset_owner_data, block_owner_data, share_owner_data, pack_owner_data, unpack_found,
  get_owner_data,
}
use bitmarkd.Ownership.Codec.{OwnerDataFits, unpack_owner_data-pack_owner_data}
use bitmarkd.Ownership.Transfer.{create, transfer_with, replace_entry, delete_entry}
use bitmarkd.Ownership.Index.{set_at, set_at-same, set_at-other, bytes_eq-cases}
use bitmarkd.Ownership.Entries.{
  index_of, data_of, next_of, counter, index_of-delete_entry, count_of-delete_entry,
  data_of-delete_entry,
}
use bitmarkd.Ownership.Valid.{IsOwnership, Owns, create-IsOwnership, delete_entry-IsOwnership}

-- The owner data that a transfer to a new owner writes: the same, from the block of the transfer.
unfoldable pub moved : ℕ → OwnerData → OwnerData
moved block_number (asset_owner_data a) =
    asset_owner_data (record a { transfer_block_number = block_number })
moved block_number (block_owner_data b) =
    block_owner_data (record b { transfer_block_number = block_number })
moved block_number (share_owner_data a) =
    share_owner_data (record a { transfer_block_number = block_number })

pub data IsShare : OwnerData → Type 0 where
  is_share : (a : _) → IsShare (share_owner_data a)

none_stays :
    (key k : List ℕ) (f : List ℕ → Option (List ℕ)) → f k ≡ none → set_at key none f k ≡ none
none_stays key k f h = elim (bytes_eq-cases key k) [
  | inl e ↦ set_at-same key k none f e
  | inr e ↦ set_at-other key k none f e ∙ h
]

pub different :
    (key k count : List ℕ) (f : List ℕ → Option (List ℕ))
    → f key ≡ none
    → f k ≡ some count
    → bytes_eq key k ≡ false
different key k count f a b = elim (bytes_eq-cases key k) [
  | inl e ↦ let both : none ≡ some count = sym a ∙ ap f e ∙ b in cc
  | inr e ↦ e
]

module _ {x : External} where
  -- The current owner has the previous transaction, with the owner data.
  pub record Held (previous_tx_id : List ℕ) (current : Account) (data' : OwnerData)
      (d : AccessData x) : Type 0 where
    pub valid : IsOwnership d
    pub held_size : length previous_tx_id ≡ 32
    pub count : List ℕ
    pub held : index_of d (account_bytes current ++ previous_tx_id) ≡ some count
    pub fits : OwnerDataFits data'
    pub packed : data_of d previous_tx_id ≡ some (pack_owner_data data')

  -- The entry moved: the state has the invariant, the new owner has the new transaction with the new
  -- owner data, and the old owner's entry and the old owner data are gone.
  pub record Moved (previous_tx_id tx_id : List ℕ) (current new : Account) (data' : OwnerData)
      (d : AccessData x) : Type 0 where
    pub valid : IsOwnership d
    pub owned : Owns (account_bytes new) tx_id d
    pub stored : data_of d tx_id ≡ some (pack_owner_data data')
    pub gone : index_of d (account_bytes current ++ previous_tx_id) ≡ none
    pub erased : data_of d previous_tx_id ≡ none

module _ {x : External} (laws : IsExternal x) where
  get_owner_data-Held :
      (previous : List ℕ) (current : Account) (data' : OwnerData) (d : AccessData x)
      → Held previous current data' d
      → get_owner_data previous d ≡ ok data'
  unfolding get_owner_data unpack_found handle_get
  get_owner_data-Held previous current data' d h =
      ap unpack_found
        (get-final laws d (owner_data ∷ previous) (pack_owner_data data') h.valid.tracks h.packed)
      ∙ unpack_owner_data-pack_owner_data data' h.fits

  pub transfer_with-Held :
      (previous tx_id : List ℕ) (block : ℕ) (current : Account) (new : Option Account)
      (quantity : ℕ) (data' : OwnerData) (d : AccessData x) (h : Held previous current data' d)
      → transfer_with previous tx_id block current new quantity d
        ≡ replace_entry data' h.count previous tx_id block current new quantity d
  unfolding transfer_with handle_get
  transfer_with-Held previous tx_id block current new quantity data' d h =
      rw
        (
          get-final laws d (owner_tx_index ∷ (account_bytes current ++ previous)) h.count
              h.valid.tracks h.held,
          get_owner_data-Held previous current data' d h,
        )
        refl

  -- Writing the entry of another transaction into a state in which the previous entry is gone.
  pub create-Moved :
      (previous tx_id : List ℕ) (current new : Account) (data' : OwnerData) (e : AccessData x)
      → IsOwnership e
      → length tx_id ≡ 32
      → index_of e (account_bytes new ++ tx_id) ≡ none
      → next_of e (account_bytes new) + 1 < 2 ^ 64
      → bytes_eq (account_bytes new ++ tx_id) (account_bytes current ++ previous) ≡ false
      → bytes_eq tx_id previous ≡ false
      → index_of e (account_bytes current ++ previous) ≡ none
      → data_of e previous ≡ none
      → (d' : AccessData x) × (create tx_id data' new e ≡ ok d')
        × Moved previous tx_id current new data' d'
  create-Moved previous tx_id current new data' e v size fresh room other other_id gone erased =
      let (d', made, c) = create-IsOwnership laws tx_id data' new e v size fresh room in
      (
        d',
        made,
        record {
          valid = c.valid;
          owned = c.owned;
          stored = c.stored;
          gone = c.others (account_bytes current ++ previous) other ∙ gone;
          erased = c.other_data previous other_id ∙ erased;
        },
      )

  -- The previous entry deleted.
  pub record Deleted (previous tx_id : List ℕ) (current new : Account) (d e : AccessData x)
      : Type 0 where
    pub valid : IsOwnership e
    pub fresh : index_of e (account_bytes new ++ tx_id) ≡ none
    pub room : next_of e (account_bytes new) + 1 < 2 ^ 64
    pub gone : index_of e (account_bytes current ++ previous) ≡ none
    pub erased : data_of e previous ≡ none

  pub delete_entry-Deleted :
      (previous tx_id : List ℕ) (current new : Account) (data' : OwnerData) (d : AccessData x)
      (h : Held previous current data' d)
      → index_of d (account_bytes new ++ tx_id) ≡ none
      → next_of d (account_bytes new) + 1 < 2 ^ 64
      → Deleted previous tx_id current new d
          (delete_entry previous (account_bytes current) h.count d)
  delete_entry-Deleted previous tx_id current new data' d h fresh room =
      let o = account_bytes current in
      let n = account_bytes new in
      let index' = index_of-delete_entry previous o h.count d in
      record {
        valid = delete_entry-IsOwnership laws previous o h.count d h.valid h.held_size h.held;
        fresh =
            ap (λ f. f (n ++ tx_id)) index'
            ∙ none_stays (o ++ previous) (n ++ tx_id) (index_of d) fresh;
        room =
            subst (λ f. counter (f n) + 1 < 2 ^ 64)
              (sym (count_of-delete_entry previous o h.count d)) room;
        gone =
            ap (λ f. f (o ++ previous)) index'
            ∙ set_at-same (o ++ previous) (o ++ previous) none (index_of d) refl;
        erased =
            ap (λ f. f previous) (data_of-delete_entry previous o h.count d)
            ∙ set_at-same previous previous none (data_of d) refl;
      }
