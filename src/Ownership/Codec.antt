-- ===== src/Ownership/Codec.antt =====
-- Owner data and its packed form.
use bitmarkd.Common.{
  ℕ, ◌+◌, ◌<◌, ◌^◌, ◌≡◌, refl, sym, ◌∙◌, arith, List, [], ◌∷◌, ◌++◌, length, length-append, take,
  drop, part, whole_take,
}
use bitmarkd.Go.{ok}
use bitmarkd.Go.Binary.{be_bytes, length-be_bytes, be_value-be_bytes}
use bitmarkd.Ownership.Data.{
  OwnerData, asset_owner_data, block_owner_data, share_owner_data, pack_owner_data,
  unpack_owner_data, pack_asset, pack_block, pack_share, transfer_block_number_of,
  issue_block_number_of,
}
use mathlib.Core.List.{append-nil}

-- The fields in the ranges of their types.
pub record Fits (transfer_block_number : ℕ) (issue_tx_id : List ℕ) (issue_block_number : ℕ)
    : Type 0 where
  pub transfer_fits : transfer_block_number < 2 ^ 64
  pub tx_id_fits : length issue_tx_id ≡ 32
  pub issue_fits : issue_block_number < 2 ^ 64

unfoldable pub OwnerDataFits : OwnerData → Type 0
OwnerDataFits (asset_owner_data a) =
    Fits a.transfer_block_number a.issue_tx_id a.issue_block_number × (length a.asset_id ≡ 64)
OwnerDataFits (block_owner_data b) = Fits b.transfer_block_number b.issue_tx_id b.issue_block_number
OwnerDataFits (share_owner_data a) =
    Fits a.transfer_block_number a.issue_tx_id a.issue_block_number × (length a.asset_id ≡ 64)

-- The fields that stand in a packed record before the asset.
fields :
    (item transfer issue : ℕ) (tx_id back rest : List ℕ)
    → Fits transfer tx_id issue
    → back ≡ be_bytes 8 issue ++ rest
    → let packed = item ∷ (be_bytes 8 transfer ++ (tx_id ++ back)) in
      (take 8 (drop 1 packed) ≡ be_bytes 8 transfer)
      × (take 32 (drop 9 packed) ≡ tx_id)
      × (take 8 (drop 41 packed) ≡ be_bytes 8 issue)
      × (drop 49 packed ≡ rest)
      × (length packed ≡ 49 + length rest)
fields item transfer issue tx_id back rest f e =
    let packed = item ∷ (be_bytes 8 transfer ++ (tx_id ++ back)) in
    let (a, at_tx) =
      part 1 8 packed (be_bytes 8 transfer) (tx_id ++ back) refl (length-be_bytes 8 transfer) in
    let (b, at_issue) = part 9 32 packed tx_id back at_tx f.tx_id_fits in
    let (c, at_rest) =
      part 41 8 packed (be_bytes 8 issue) rest (at_issue ∙ e) (length-be_bytes 8 issue) in
    let size : length back ≡ 8 + length rest = rw e (simp (length-append, length-be_bytes) refl) in
    (a, b, c, at_rest, simp (length-append, length-be_bytes) (omega (arith, size, f.tx_id_fits)))

-- Unpack reads back what Pack wrote, for owner data of each of the three kinds whose numbers are
-- below 2 ^ 64, with identifiers of 32 and of 64 bytes.
pub unpack_owner_data-pack_owner_data :
    (o : OwnerData) → OwnerDataFits o → unpack_owner_data (pack_owner_data o) ≡ ok o
unfolding unpack_owner_data pack_owner_data pack_asset pack_block pack_share
    transfer_block_number_of issue_block_number_of OwnerDataFits
unpack_owner_data-pack_owner_data (asset_owner_data a) (f, g) =
    let (x, y, z, w, l) =
      fields 0 a.transfer_block_number a.issue_block_number a.issue_tx_id _ a.asset_id f refl in
    rw
      (
        l,
        g,
        x,
        y,
        z,
        w,
        whole_take 64 a.asset_id g,
        be_value-be_bytes 8 a.transfer_block_number f.transfer_fits,
        be_value-be_bytes 8 a.issue_block_number f.issue_fits,
      )
      refl
unpack_owner_data-pack_owner_data (block_owner_data b) f =
    let (x, y, z, w, l) =
      fields 1 b.transfer_block_number b.issue_block_number b.issue_tx_id _ [] f
        (sym (append-nil _)) in
    rw
      (
        l,
        x,
        y,
        z,
        be_value-be_bytes 8 b.transfer_block_number f.transfer_fits,
        be_value-be_bytes 8 b.issue_block_number f.issue_fits,
      )
      refl
unpack_owner_data-pack_owner_data (share_owner_data a) (f, g) =
    let (x, y, z, w, l) =
      fields 2 a.transfer_block_number a.issue_block_number a.issue_tx_id _ a.asset_id f refl in
    rw
      (
        l,
        g,
        x,
        y,
        z,
        w,
        whole_take 64 a.asset_id g,
        be_value-be_bytes 8 a.transfer_block_number f.transfer_fits,
        be_value-be_bytes 8 a.issue_block_number f.issue_fits,
      )
      refl
