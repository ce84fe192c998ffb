-- ===== src/Ownership/Data.antt =====
-- ownership/data.go and ownership/item.go: the owner data of a bitmark and its packed form.
use bitmarkd.Common.{
  ℕ, List, [], ◌∷◌, ◌++◌, length, take, drop, ◌==◌, not, Option, none, some, if◌then◌else◌,
}
use bitmarkd.Fault.{not_owner_data_pack, missing_owner_data}
use bitmarkd.Go.{Result, ok, err}
use bitmarkd.Go.Binary.{be_bytes, be_value}
use bitmarkd.Storage.External.{External}
use bitmarkd.Storage.Access.{AccessData}
use bitmarkd.Storage.Handle.{handle_get, owner_data}

-- The flag byte.
abbrev pub owned_asset : ℕ
owned_asset = 0

abbrev pub owned_block : ℕ
owned_block = 1

abbrev pub owned_share : ℕ
owned_share = 2

abbrev pub asset_pack_length : ℕ
asset_pack_length = 113

abbrev pub block_pack_length : ℕ
block_pack_length = 49

abbrev pub share_pack_length : ℕ
share_pack_length = 113

pub record AssetOwnerData : Type 0 where
  pub transfer_block_number : ℕ
  pub issue_tx_id : List ℕ
  pub issue_block_number : ℕ
  pub asset_id : List ℕ

-- The block that is owned is the one of issue_block_number.
pub record BlockOwnerData : Type 0 where
  pub transfer_block_number : ℕ
  pub issue_tx_id : List ℕ
  pub issue_block_number : ℕ

pub record ShareOwnerData : Type 0 where
  pub transfer_block_number : ℕ
  pub issue_tx_id : List ℕ
  pub issue_block_number : ℕ
  pub asset_id : List ℕ

-- The types that implement the interface OwnerData.
pub data OwnerData : Type 0 where
  asset_owner_data : AssetOwnerData → OwnerData
  block_owner_data : BlockOwnerData → OwnerData
  share_owner_data : ShareOwnerData → OwnerData

unfoldable pub pack_asset : AssetOwnerData → List ℕ
pack_asset a =
    owned_asset
    ∷ (be_bytes 8 a.transfer_block_number
        ++ (a.issue_tx_id ++ (be_bytes 8 a.issue_block_number ++ a.asset_id)))

unfoldable pub pack_block : BlockOwnerData → List ℕ
pack_block b =
    owned_block
    ∷ (be_bytes 8 b.transfer_block_number ++ (b.issue_tx_id ++ be_bytes 8 b.issue_block_number))

unfoldable pub pack_share : ShareOwnerData → List ℕ
pack_share a =
    owned_share
    ∷ (be_bytes 8 a.transfer_block_number
        ++ (a.issue_tx_id ++ (be_bytes 8 a.issue_block_number ++ a.asset_id)))

unfoldable pub pack_owner_data : OwnerData → List ℕ
unfolding pack_asset pack_block pack_share
pack_owner_data (asset_owner_data a) = pack_asset a
pack_owner_data (block_owner_data b) = pack_block b
pack_owner_data (share_owner_data a) = pack_share a

-- The fields of a packed record, at the constants of data.go.
unfoldable pub transfer_block_number_of : List ℕ → ℕ
unfolding be_value
transfer_block_number_of packed = be_value (take 8 (drop 1 packed))

abbrev pub issue_tx_id_of : List ℕ → List ℕ
issue_tx_id_of packed = take 32 (drop 9 packed)

unfoldable pub issue_block_number_of : List ℕ → ℕ
unfolding be_value
issue_block_number_of packed = be_value (take 8 (drop 41 packed))

abbrev pub asset_id_of : List ℕ → List ℕ
asset_id_of packed = take 64 (drop 49 packed)

-- In each case the length is checked first, and so the copies into arrays are of whole fields.
unfoldable pub unpack_owner_data : List ℕ → Result OwnerData
unfolding transfer_block_number_of issue_block_number_of
unpack_owner_data [] = err not_owner_data_pack
unpack_owner_data (item ∷ rest) =
    let packed = item ∷ rest in
    if item == owned_asset
    then if not (asset_pack_length == length packed)
      then err not_owner_data_pack
      else ok (
          asset_owner_data (record {
            transfer_block_number = transfer_block_number_of packed;
            issue_tx_id = issue_tx_id_of packed;
            issue_block_number = issue_block_number_of packed;
            asset_id = asset_id_of packed;
          }))
    else if item == owned_block
    then if not (block_pack_length == length packed)
      then err not_owner_data_pack
      else ok (
          block_owner_data (record {
            transfer_block_number = transfer_block_number_of packed;
            issue_tx_id = issue_tx_id_of packed;
            issue_block_number = issue_block_number_of packed;
          }))
    else if item == owned_share
    then if not (share_pack_length == length packed)
      then err not_owner_data_pack
      else ok (
          share_owner_data (record {
            transfer_block_number = transfer_block_number_of packed;
            issue_tx_id = issue_tx_id_of packed;
            issue_block_number = issue_block_number_of packed;
            asset_id = asset_id_of packed;
          }))
    else err not_owner_data_pack

unfoldable pub unpack_found : Option (List ℕ) → Result OwnerData
unfolding unpack_owner_data
unpack_found none = err missing_owner_data
unpack_found (some packed) = unpack_owner_data packed

-- GetOwnerData of a transaction and of the pool OwnerData.
unfoldable pub get_owner_data : {x : External} → List ℕ → AccessData x → Result OwnerData
unfolding unpack_found
get_owner_data tx_id d = unpack_found (handle_get owner_data tx_id d)
