-- ===== src/TransactionRecord/Total.antt =====
-- Whatever the bytes are, Unpack ends, with a record or with an error.
use bitmarkd.Common.{arith, ℕ, ◌+◌, ◌≡◌, refl, Bool, false, ◌==◌, ◌⊎◌, inl, inr}
use bitmarkd.Common.Int.{pos}
use bitmarkd.Util.Varint.{clipped_varint64}
use bitmarkd.Crypto.{Crypto}
use bitmarkd.Fault.{Fault, not_transaction_pack}
use bitmarkd.Go.{Result, ok, err, panicked, exhausted, Slice}
use bitmarkd.Go.Ends.{exhausts}
use bitmarkd.TransactionRecord.Types.{
  Transaction, OldBaseData, AssetData, BitmarkIssue, BitmarkTransferUnratified,
  BitmarkTransferCountersigned, BlockFoundation, BlockOwnerTransfer, BitmarkShare, ShareGrant,
  ShareSwap, old_base_data, asset_data, bitmark_issue, bitmark_transfer_unratified,
  bitmark_transfer_countersigned, block_foundation, block_owner_transfer, bitmark_share,
  share_grant, share_swap, base_data_tag, asset_data_tag, bitmark_issue_tag,
  bitmark_transfer_unratified_tag, bitmark_transfer_countersigned_tag, block_foundation_tag,
  block_owner_transfer_tag, bitmark_share_tag, share_grant_tag, share_swap_tag,
}
use bitmarkd.TransactionRecord.Checks.{
  base_data_check-ends, asset_data_check-ends, issue_check-ends, unratified_check-ends,
  countersigned_check-ends, foundation_check-ends, owner_transfer_check-ends, share_check-ends,
  grant_check-ends, swap_check-ends,
}
use bitmarkd.TransactionRecord.Check.{
  base_data_check, asset_data_check, issue_check, unratified_check, countersigned_check,
  foundation_check, owner_transfer_check, share_check, grant_check, swap_check,
}
use bitmarkd.TransactionRecord.Reader.{lift, pure, ◌>>◌}
use bitmarkd.TransactionRecord.Ends.{
  Ends, Ends-bind, Ends-lift, Ends-pure, Ends-if, Ends-refuse, Ends-remainder, Ends-advance,
  Ends-range, Ends-uint64, Ends-bytes, Ends-digest, Ends-asset_id, Ends-account, Ends-currency,
  Ends-escrow, Ends-version, Ends-payments,
}
use bitmarkd.TransactionRecord.Unpack.{unpack, unpack_record, read_type, recover}
use bitmarkd.TransactionRecord.Unpack.Single.{
  read_name, read_metadata, base_data_unpack, asset_data_unpack, issue_unpack, unratified_unpack,
  foundation_unpack, share_unpack,
}
use bitmarkd.TransactionRecord.Unpack.Double.{
  countersigned_unpack, owner_transfer_unpack, grant_unpack, swap_unpack,
}

Ends-name : Ends read_name
unfolding read_name
Ends-name = Ends-bind Ends-remainder (λ b.
    Ends-bind (Ends-advance (clipped_varint64 b (pos 0) (pos 8192)).1) (λ u.
      Ends-bind (Ends-range (clipped_varint64 b (pos 0) (pos 8192)).0) (λ r. Ends-pure r.visible)))

Ends-metadata : Ends read_metadata
unfolding read_metadata
Ends-metadata = Ends-bind Ends-remainder (λ b. Ends-bind (Ends-refuse _ _) (λ u.
    Ends-bind (Ends-advance (clipped_varint64 b (pos 0) (pos 8192)).1) (λ u'.
      Ends-bind (Ends-range (clipped_varint64 b (pos 0) (pos 8192)).0) (λ r. Ends-pure r.visible))))

-- The end of each case: the check of the record.
Ends-checked {ℓ} :
    {A : Type ℓ} (check : Result (Unit {0})) (a : A)
    → exhausts check ≡ false
    → Ends (lift check >> pure a)
Ends-checked check a h = Ends-bind (Ends-lift check h) (λ u. Ends-pure a)

base_data_unpack-Ends : (heap : ℕ) (testnet : Bool) → Ends (base_data_unpack heap testnet)
unfolding base_data_unpack
base_data_unpack-Ends heap testnet = Ends-bind Ends-currency (λ currency.
    Ends-bind Ends-bytes (λ payment_address. Ends-bind (Ends-account heap testnet) (λ owner.
      Ends-bind Ends-uint64 (λ nonce. Ends-bind Ends-bytes (λ signature.
        let r : OldBaseData = record {
          currency = currency;
          payment_address = payment_address;
          owner = owner;
          nonce = nonce;
          signature = signature;
        } in
        Ends-checked (base_data_check r) r (base_data_check-ends r))))))

asset_data_unpack-Ends : (heap : ℕ) (testnet : Bool) → Ends (asset_data_unpack heap testnet)
unfolding asset_data_unpack
asset_data_unpack-Ends heap testnet = Ends-bind Ends-name (λ name.
    Ends-bind Ends-bytes (λ fingerprint. Ends-bind Ends-metadata (λ metadata.
      Ends-bind (Ends-account heap testnet) (λ registrant. Ends-bind Ends-bytes (λ signature.
        let r : AssetData = record {
          name = name;
          fingerprint = fingerprint;
          metadata = metadata;
          registrant = registrant;
          signature = signature;
        } in
        Ends-checked (asset_data_check r) r (asset_data_check-ends r))))))

issue_unpack-Ends : (heap : ℕ) (testnet : Bool) → Ends (issue_unpack heap testnet)
unfolding issue_unpack
issue_unpack-Ends heap testnet = Ends-bind Ends-asset_id (λ asset_id.
    Ends-bind (Ends-account heap testnet) (λ owner. Ends-bind Ends-uint64 (λ nonce.
      Ends-bind Ends-bytes (λ signature.
        let r : BitmarkIssue = record {
          asset_id = asset_id;
          owner = owner;
          nonce = nonce;
          signature = signature;
        } in
        Ends-checked (issue_check r) r (issue_check-ends r)))))

unratified_unpack-Ends : (heap : ℕ) (testnet : Bool) → Ends (unratified_unpack heap testnet)
unfolding unratified_unpack
unratified_unpack-Ends heap testnet = Ends-bind Ends-digest (λ link.
    Ends-bind Ends-escrow (λ escrow. Ends-bind (Ends-account heap testnet) (λ owner.
      Ends-bind Ends-bytes (λ signature.
        let r : BitmarkTransferUnratified = record {
          link = link;
          escrow = escrow;
          owner = owner;
          signature = signature;
        } in
        Ends-checked (unratified_check r) r (unratified_check-ends r)))))

countersigned_unpack-Ends : (heap : ℕ) (testnet : Bool) → Ends (countersigned_unpack heap testnet)
unfolding countersigned_unpack
countersigned_unpack-Ends heap testnet = Ends-bind Ends-digest (λ link.
    Ends-bind Ends-escrow (λ escrow. Ends-bind (Ends-account heap testnet) (λ owner.
      Ends-bind Ends-bytes (λ signature. Ends-bind Ends-bytes (λ countersignature.
        let r : BitmarkTransferCountersigned = record {
          link = link;
          escrow = escrow;
          owner = owner;
          signature = signature;
          countersignature = countersignature;
        } in
        Ends-checked (countersigned_check r) r (countersigned_check-ends r))))))

foundation_unpack-Ends :
    (c : Crypto) (heap : ℕ) (testnet : Bool) → Ends (foundation_unpack c heap testnet)
unfolding foundation_unpack
foundation_unpack-Ends c heap testnet = Ends-bind Ends-version (λ version.
    Ends-bind (Ends-payments c version testnet) (λ payments.
      Ends-bind (Ends-account heap testnet) (λ owner. Ends-bind Ends-uint64 (λ nonce.
        Ends-bind Ends-bytes (λ signature.
          let r : BlockFoundation = record {
            version = version;
            payments = payments;
            owner = owner;
            nonce = nonce;
            signature = signature;
          } in
          Ends-checked (foundation_check c r testnet) r (foundation_check-ends c r testnet))))))

owner_transfer_unpack-Ends :
    (c : Crypto) (heap : ℕ) (testnet : Bool) → Ends (owner_transfer_unpack c heap testnet)
unfolding owner_transfer_unpack
owner_transfer_unpack-Ends c heap testnet = Ends-bind Ends-digest (λ link.
    Ends-bind Ends-escrow (λ escrow. Ends-bind Ends-version (λ version.
      Ends-bind (Ends-payments c version testnet) (λ payments.
        Ends-bind (Ends-account heap testnet) (λ owner. Ends-bind Ends-bytes (λ signature.
          Ends-bind Ends-bytes (λ countersignature.
            let r : BlockOwnerTransfer = record {
              link = link;
              escrow = escrow;
              version = version;
              payments = payments;
              owner = owner;
              signature = signature;
              countersignature = countersignature;
            } in
            Ends-checked (owner_transfer_check c r testnet) r
              (owner_transfer_check-ends c r testnet))))))))

share_unpack-Ends : Ends (share_unpack)
unfolding share_unpack
share_unpack-Ends = Ends-bind Ends-digest (λ link. Ends-bind Ends-uint64 (λ quantity.
    Ends-bind Ends-bytes (λ signature.
      let r : BitmarkShare = record { link = link; quantity = quantity; signature = signature } in
      Ends-checked (share_check r) r (share_check-ends r))))

grant_unpack-Ends : (heap : ℕ) (testnet : Bool) → Ends (grant_unpack heap testnet)
unfolding grant_unpack
grant_unpack-Ends heap testnet = Ends-bind Ends-digest (λ share_id.
    Ends-bind Ends-uint64 (λ quantity. Ends-bind (Ends-account heap testnet) (λ owner.
      Ends-bind (Ends-account (heap + 1) testnet) (λ recipient.
        Ends-bind Ends-uint64 (λ before_block. Ends-bind Ends-bytes (λ signature.
          Ends-bind Ends-bytes (λ countersignature.
            let r : ShareGrant = record {
              share_id = share_id;
              quantity = quantity;
              owner = owner;
              recipient = recipient;
              before_block = before_block;
              signature = signature;
              countersignature = countersignature;
            } in
            Ends-checked (grant_check r) r (grant_check-ends r))))))))

swap_unpack-Ends : (heap : ℕ) (testnet : Bool) → Ends (swap_unpack heap testnet)
unfolding swap_unpack
swap_unpack-Ends heap testnet = Ends-bind Ends-digest (λ share_id_one.
    Ends-bind Ends-uint64 (λ quantity_one. Ends-bind (Ends-account heap testnet) (λ owner_one.
      Ends-bind Ends-digest (λ share_id_two. Ends-bind Ends-uint64 (λ quantity_two.
        Ends-bind (Ends-account (heap + 1) testnet) (λ owner_two.
          Ends-bind Ends-uint64 (λ before_block. Ends-bind Ends-bytes (λ signature.
            Ends-bind Ends-bytes (λ countersignature.
              let r : ShareSwap = record {
                share_id_one = share_id_one;
                quantity_one = quantity_one;
                owner_one = owner_one;
                share_id_two = share_id_two;
                quantity_two = quantity_two;
                owner_two = owner_two;
                before_block = before_block;
                signature = signature;
                countersignature = countersignature;
              } in
              Ends-checked (swap_check r) r (swap_check-ends r))))))))))

Ends-type : Ends read_type
unfolding read_type
Ends-type = record { ends = λ s n. ground arith }

unpack_record-Ends :
    (c : Crypto) (heap : ℕ) (testnet : Bool) (tag : ℕ) → Ends (unpack_record c heap testnet tag)
unfolding unpack_record
unpack_record-Ends c heap testnet tag =
    Ends-if (tag == base_data_tag)
      (Ends-bind (base_data_unpack-Ends heap testnet) (λ r. Ends-pure (old_base_data r)))
      (Ends-if (tag == asset_data_tag)
        (Ends-bind (asset_data_unpack-Ends heap testnet) (λ r. Ends-pure (asset_data r)))
        (Ends-if (tag == bitmark_issue_tag)
          (Ends-bind (issue_unpack-Ends heap testnet) (λ r. Ends-pure (bitmark_issue r)))
          (Ends-if (tag == bitmark_transfer_unratified_tag)
            (Ends-bind (unratified_unpack-Ends heap testnet)
              (λ r. Ends-pure (bitmark_transfer_unratified r)))
            (Ends-if (tag == bitmark_transfer_countersigned_tag)
              (Ends-bind (countersigned_unpack-Ends heap testnet)
                (λ r. Ends-pure (bitmark_transfer_countersigned r)))
              (Ends-if (tag == block_foundation_tag)
                (Ends-bind (foundation_unpack-Ends c heap testnet)
                  (λ r. Ends-pure (block_foundation r)))
                (Ends-if (tag == block_owner_transfer_tag)
                  (Ends-bind (owner_transfer_unpack-Ends c heap testnet)
                    (λ r. Ends-pure (block_owner_transfer r)))
                  (Ends-if (tag == bitmark_share_tag)
                    (Ends-bind share_unpack-Ends (λ r. Ends-pure (bitmark_share r)))
                    (Ends-if (tag == share_grant_tag)
                      (Ends-bind (grant_unpack-Ends heap testnet) (λ r. Ends-pure (share_grant r)))
                      (Ends-if (tag == share_swap_tag)
                        (Ends-bind (swap_unpack-Ends heap testnet) (λ r. Ends-pure (share_swap r)))
                        (Ends-lift (err not_transaction_pack) refl))))))))))

recover-ends {ℓ} :
    {A : Type ℓ} (r : Result A)
    → exhausts r ≡ false
    → ((a : A) × (recover r ≡ ok a)) ⊎ ((e : Fault) × (recover r ≡ err e))
recover-ends (ok a) h = inl (a, refl)
recover-ends (err e) h = inr (e, refl)
recover-ends panicked h = inr (not_transaction_pack, refl)
recover-ends exhausted h = cc

-- On every slice, on both networks and whatever the hashes are, Unpack returns a record with a count
-- of bytes, or an error: it never panics, and its loops always end.
pub unpack-returns :
    (c : Crypto) (heap : ℕ) (s : Slice) (testnet : Bool)
    → ((r : Transaction × ℕ) × (unpack c heap s testnet ≡ ok r))
      ⊎ ((e : Fault) × (unpack c heap s testnet ≡ err e))
unfolding unpack
unpack-returns c heap s testnet =
    recover-ends _ ((Ends-bind Ends-type (λ tag. unpack_record-Ends c heap testnet tag)).ends s 0)
