-- ===== src/Tests/Ownership.antt =====
-- The records of two owners, from an empty database on.
use bitmarkd.Common.{
  ℕ, ◌≡◌, refl, sym, subst, ◌∙◌, arith, true, List, [], ◌∷◌, ◌++◌, replicate, none, some,
}
use bitmarkd.Go.{ok, ok-injective}
use bitmarkd.Go.Binary.{be_bytes, be_value}
use bitmarkd.Account.{Account, ed25519_account, account_bytes}
use bitmarkd.Storage.Access.{AccessData, get, get_from_cache, put}
use bitmarkd.Storage.Final.{final}
use bitmarkd.Storage.Handle.{shares, share_quantity, handle_get, handle_put}
use bitmarkd.Ownership.Data.{
  OwnerData, AssetOwnerData, ShareOwnerData, asset_owner_data, share_owner_data, pack_owner_data,
  unpack_owner_data,
}
use bitmarkd.Ownership.Codec.{OwnerDataFits, unpack_owner_data-pack_owner_data}
use bitmarkd.Ownership.Transfer.{create, transfer, share, add_entry, next_count}
use bitmarkd.Ownership.Entries.{index_of, next_of}
use bitmarkd.Ownership.Valid.{IsOwnership, Created, create-IsOwnership}
use bitmarkd.Ownership.Moves.{Held, Moved, IsShare, moved}
use bitmarkd.Ownership.Change.{to_asset, to_share, transfer-Moved, transfer-share, share-Moved}
use bitmarkd.Tests.Storage.{maps, maps-IsExternal}

abbrev alice : Account
alice = ed25519_account true (replicate 32 1)

abbrev bob : Account
bob = ed25519_account true (replicate 32 2)

abbrev first_tx : List ℕ
first_tx = replicate 32 7

abbrev second_tx : List ℕ
second_tx = replicate 32 8

abbrev asset : AssetOwnerData
asset = record {
  transfer_block_number = 5;
  issue_tx_id = first_tx;
  issue_block_number = 5;
  asset_id = replicate 64 3;
}

abbrev part_of : ShareOwnerData
part_of = record {
  transfer_block_number = 5;
  issue_tx_id = first_tx;
  issue_block_number = 5;
  asset_id = replicate 64 3;
}

abbrev empty : AccessData maps
empty = record { in_use = true; db = λ key. none; batch = []; cache = λ key. none }

empty-IsOwnership : IsOwnership empty
empty-IsOwnership = record {
  tracks = λ key. refl;
  counted = λ owner h. let both : none ≡ some _ = h in cc;
  counter_size = λ owner count h. let both : none ≡ some count = h in cc;
  indexed = record {
    index_listed = λ o t c size h. let both : none ≡ some c = h in cc;
    listed_index = λ o t c size h. let both : none ≡ some t = h in cc;
  };
}

asset-fits : OwnerDataFits (asset_owner_data asset)
unfolding OwnerDataFits
asset-fits =
    (record { transfer_fits = omega arith; tx_id_fits = refl; issue_fits = omega arith }, refl)

share-fits : OwnerDataFits (share_owner_data part_of)
unfolding OwnerDataFits
share-fits =
    (record { transfer_fits = omega arith; tx_id_fits = refl; issue_fits = omega arith }, refl)

unpack_owner_data-pack_owner_data_example :
    unpack_owner_data (pack_owner_data (asset_owner_data asset)) ≡ ok (asset_owner_data asset)
unpack_owner_data-pack_owner_data_example =
    unpack_owner_data-pack_owner_data (asset_owner_data asset) asset-fits

create-IsOwnership_example :
    (d' : AccessData maps) × (create first_tx (asset_owner_data asset) alice empty ≡ ok d')
    × Created first_tx (asset_owner_data asset) (account_bytes alice) empty d'
create-IsOwnership_example =
    create-IsOwnership maps-IsExternal first_tx (asset_owner_data asset) alice empty
      empty-IsOwnership refl refl (omega arith)

-- What the creation of the first item, with any owner data, leaves.
abbrev issued : OwnerData → AccessData maps
issued data' = add_entry first_tx data' (account_bytes alice) (replicate 8 0) empty

issued_lem : (data' : OwnerData) → create first_tx data' alice empty ≡ ok (issued data')
unfolding create next_count handle_get get get_from_cache
issued_lem data' = refl

issued-Held : (data' : OwnerData) → OwnerDataFits data' → Held first_tx alice data' (issued data')
issued-Held data' fits =
    let (d', made, c) =
      create-IsOwnership maps-IsExternal first_tx data' alice empty empty-IsOwnership refl refl
        (omega arith) in
    subst (Held first_tx alice data') (ok-injective (sym made ∙ issued_lem data')) (record {
      valid = c.valid;
      held_size = refl;
      count = c.owned.0;
      held = c.owned.1;
      fits = fits;
      packed = c.stored;
    })

-- Neither bob nor alice has the second transaction, and bob has a count of zero.
fresh_bob : (data' : OwnerData) → index_of (issued data') (account_bytes bob ++ second_tx) ≡ none
unfolding add_entry handle_put put account_bytes
fresh_bob data' = refl

fresh_alice :
    (data' : OwnerData) → index_of (issued data') (account_bytes alice ++ second_tx) ≡ none
unfolding add_entry handle_put put account_bytes
fresh_alice data' = refl

room_bob : (data' : OwnerData) → next_of (issued data') (account_bytes bob) ≡ 0
unfolding add_entry handle_put put account_bytes
room_bob data' = refl

room_alice : (data' : OwnerData) → next_of (issued data') (account_bytes alice) ≡ 1
unfolding add_entry handle_put put account_bytes be_bytes be_value
room_alice data' = refl

no_share : IsShare (asset_owner_data asset) → ⊥
no_share h = elim h [ ]

transfer-Moved_example :
    (d' : AccessData maps) × (transfer first_tx second_tx 6 alice
        (some bob)
        (issued (asset_owner_data asset))
      ≡ ok d')
    × Moved first_tx second_tx alice bob (moved 6 (asset_owner_data asset)) d'
transfer-Moved_example =
    transfer-Moved maps-IsExternal first_tx second_tx 6 alice bob (asset_owner_data asset)
      (issued (asset_owner_data asset)) (issued-Held (asset_owner_data asset) asset-fits) no_share
      refl (fresh_bob (asset_owner_data asset)) (omega (arith, room_bob (asset_owner_data asset)))
      refl

transfer-share_example :
    (d' : AccessData maps) × (transfer first_tx second_tx 6 alice
        (some bob)
        (issued (share_owner_data part_of))
      ≡ ok d')
    × Moved first_tx second_tx alice alice (to_asset 6 part_of) d'
transfer-share_example =
    transfer-share maps-IsExternal first_tx second_tx 6 alice bob part_of
      (issued (share_owner_data part_of)) (issued-Held (share_owner_data part_of) share-fits) refl
      (fresh_alice (share_owner_data part_of))
      (omega (arith, room_alice (share_owner_data part_of))) refl

share-Moved_example :
    (d' : AccessData maps) × (share first_tx second_tx 6 alice 100 (issued (asset_owner_data asset))
      ≡ ok d')
    × Moved first_tx second_tx alice alice (to_share 6 asset) d'
    × (final (shares ∷ first_tx) d' ≡ some (be_bytes 8 100 ++ second_tx))
    × (final (share_quantity ∷ (account_bytes alice ++ first_tx)) d' ≡ some (be_bytes 8 100))
share-Moved_example =
    share-Moved maps-IsExternal first_tx second_tx 6 alice 100 asset
      (issued (asset_owner_data asset)) (issued-Held (asset_owner_data asset) asset-fits) refl refl
      (fresh_alice (asset_owner_data asset)) (omega (arith, room_alice (asset_owner_data asset)))
      refl
