-- ===== src/TransactionRecord/RoundTrip/Whole.antt =====
-- Packed.Unpack on what Transaction.Pack wrote.
use bitmarkd.Common.{
  ℕ, ◌+◌, ◌≤◌, ◌≡◌, refl, sym, ap, ◌∙◌, arith, Bool, List, [], ◌++◌, length, length-append,
  drop-append,
}
use bitmarkd.Crypto.{Crypto}
use bitmarkd.Currency
use bitmarkd.Currency.Map.{Map, lookup}
use bitmarkd.Currency.Payments.{both}
use bitmarkd.Account.{Account}
use bitmarkd.Go.{ok, Slice, Pointer}
use bitmarkd.TransactionRecord.Types.{
  Transaction, old_base_data, asset_data, bitmark_issue, bitmark_transfer_unratified,
  bitmark_transfer_countersigned, block_foundation, block_owner_transfer, bitmark_share,
  share_grant, share_swap, base_data_tag, asset_data_tag, bitmark_issue_tag,
  bitmark_transfer_unratified_tag, bitmark_transfer_countersigned_tag, block_foundation_tag,
  block_owner_transfer_tag, bitmark_share_tag, share_grant_tag, share_swap_tag,
}
use bitmarkd.TransactionRecord.Append.{packed}
use bitmarkd.TransactionRecord.Pack.{pack}
use bitmarkd.TransactionRecord.Reader.{Reader, continue, ◌>>=◌, pure}
use bitmarkd.TransactionRecord.Reads.{Reads-bind, Reads-pure}
use bitmarkd.TransactionRecord.Unpack.{unpack, unpack_record, read_type, recover}
use bitmarkd.TransactionRecord.RoundTrip.Written.{Written, moved, AccountNetwork}
use bitmarkd.TransactionRecord.RoundTrip.BaseData.{BaseDataFits, base_data-Written}
use bitmarkd.TransactionRecord.RoundTrip.Asset.{AssetDataFits, asset_data-Written}
use bitmarkd.TransactionRecord.RoundTrip.Issue.{IssueFits, issue-Written}
use bitmarkd.TransactionRecord.RoundTrip.Unratified.{UnratifiedFits, unratified-Written}
use bitmarkd.TransactionRecord.RoundTrip.Share.{ShareFits, share-Written}
use bitmarkd.TransactionRecord.RoundTrip.Countersigned.{CountersignedFits, countersigned-Written}
use bitmarkd.TransactionRecord.RoundTrip.Foundation.{FoundationFits, foundation-Written}
use bitmarkd.TransactionRecord.RoundTrip.OwnerTransfer.{OwnerTransferFits, owner_transfer-Written}
use bitmarkd.TransactionRecord.RoundTrip.Grant.{GrantFits, grant-Written}
use bitmarkd.TransactionRecord.RoundTrip.Swap.{SwapFits, swap-Written}
use bitmarkd.Util.Varint.{to_varint64}
use bitmarkd.Util.Varint.Encode.{to_varint64_written}
use bitmarkd.Util.Varint.Decode.{clipped_varint64-to_varint64}
use mathlib.Core.List.{append_assoc, append-nil}

-- The ranges of the fields of a record, by the Go types of the fields, and the accounts of the
-- network.
abbrev pub Fits : Bool → Transaction → Type 0
Fits testnet (old_base_data r) = BaseDataFits testnet r
Fits testnet (asset_data r) = AssetDataFits testnet r
Fits testnet (bitmark_issue r) = IssueFits testnet r
Fits testnet (bitmark_transfer_unratified r) = UnratifiedFits testnet r
Fits testnet (bitmark_transfer_countersigned r) = CountersignedFits testnet r
Fits testnet (block_foundation r) = FoundationFits testnet r
Fits testnet (block_owner_transfer r) = OwnerTransferFits testnet r
Fits testnet (bitmark_share r) = ShareFits testnet r
Fits testnet (share_grant r) = GrantFits testnet r
Fits testnet (share_swap r) = SwapFits testnet r

-- The payments in the order of the currencies.
abbrev pub in_order : Map → Map
in_order m = both (lookup Currency.bitcoin m) (lookup Currency.litecoin m)

-- The record with its accounts at the places from `heap` on, and its payments in order.
abbrev pub read_back : ℕ → Transaction → Transaction
read_back heap (old_base_data r) = old_base_data (record r { owner = moved heap r.owner })
read_back heap (asset_data r) = asset_data (record r { registrant = moved heap r.registrant })
read_back heap (bitmark_issue r) = bitmark_issue (record r { owner = moved heap r.owner })
read_back heap (bitmark_transfer_unratified r) =
    bitmark_transfer_unratified (record r { owner = moved heap r.owner })
read_back heap (bitmark_transfer_countersigned r) =
    bitmark_transfer_countersigned (record r { owner = moved heap r.owner })
read_back heap (block_foundation r) =
    block_foundation (record r { payments = in_order r.payments; owner = moved heap r.owner })
read_back heap (block_owner_transfer r) =
    block_owner_transfer (record r { payments = in_order r.payments; owner = moved heap r.owner })
read_back heap (bitmark_share r) = bitmark_share r
read_back heap (share_grant r) =
    share_grant (record r { owner = moved heap r.owner; recipient = moved (heap + 1) r.recipient })
read_back heap (share_swap r) =
    share_swap
      (record r { owner_one = moved heap r.owner_one; owner_two = moved (heap + 1) r.owner_two })

Written-map :
    {A : Type 0} {B : Type 0} {m : Reader A} {tag : ℕ} {bytes : List ℕ} {a : A} (k : A → B)
    → Written m tag bytes a
    → Written (m >>= λ r. pure (k r)) tag bytes (k a)
Written-map {tag = tag} {a = a} k w = record {
  fields = w.fields ++ [];
  split = ap (λ (f : List ℕ). to_varint64 tag ++ f) (append-nil w.fields) ∙ w.split;
  reads_fields = Reads-bind _ w.reads_fields (Reads-pure (k a));
}

read_type-tag :
    (tag : ℕ) (rest spare : List ℕ)
    → 1 ≤ tag
    → tag ≤ 8192
    → read_type (record { visible = to_varint64 tag ++ rest; spare = spare }) 0
      ≡ ok (tag, length (to_varint64 tag))
unfolding read_type
read_type-tag tag rest spare lo hi =
    rw
      (
        clipped_varint64-to_varint64 tag 1 8192 rest lo hi (omega arith) (omega arith),
        to_varint64_written tag (omega arith),
      )
      refl

-- The tag leads the switch to the reader of the record.
unpack-Written :
    (c : Crypto) (heap : ℕ) (testnet : Bool) (tag : ℕ) (more spare : List ℕ) {bytes : List ℕ}
    {tx : Transaction}
    → 1 ≤ tag
    → tag ≤ 8192
    → Written (unpack_record c heap testnet tag) tag bytes tx
    → unpack c heap (record { visible = bytes ++ more; spare = spare }) testnet
      ≡ ok (tx, length bytes)
unfolding unpack
unpack-Written c heap testnet tag more spare {bytes} {tx} lo hi w =
    let prefix = to_varint64 tag in
    let s : Slice = record { visible = prefix ++ (w.fields ++ more); spare = spare } in
    let whole : prefix ++ (w.fields ++ more) ≡ bytes ++ more =
      sym (append_assoc prefix w.fields more) ∙ ap (λ (b : List ℕ). b ++ more) w.split in
    let read =
      w.reads_fields.reads s (length prefix) more (drop-append prefix (w.fields ++ more))
        (sym (length-append prefix (w.fields ++ more))) in
    let total : length prefix + length w.fields ≡ length bytes =
      sym (length-append prefix w.fields) ∙ ap length w.split in
    rw (← whole) (
      ap (λ t. recover (continue t (λ a k. unpack_record c heap testnet a s k)))
        (read_type-tag tag (w.fields ++ more) spare lo hi)
      ∙ ap recover read
      ∙ ap (λ (k : ℕ). ok (tx, k)) total)

-- Let the fields of a record be in the ranges of their types, the payment addresses of a base data
-- record and of an escrow not be empty, the accounts' keys have the lengths of their algorithms, the
-- accounts and the signing account be of the network, and let Pack return a packed record. Then
-- Unpack on that network returns the same record, with its accounts at the places from `heap` on and
-- its payments in the order of the currencies, and the number of the packed bytes, whatever follows
-- the packed record in its slice and beyond it in the array.
pub unpack-pack :
    (c : Crypto) (heap : ℕ) (testnet : Bool) (tx : Transaction) (address : Pointer Account)
    (bytes more spare : List ℕ)
    → Fits testnet tx
    → AccountNetwork testnet address
    → pack c tx address ≡ packed bytes
    → unpack c heap (record { visible = bytes ++ more; spare = spare }) testnet
      ≡ ok (read_back heap tx, length bytes)
unfolding pack unpack_record
unpack-pack c heap testnet (old_base_data r) address bytes more spare f on h =
    unpack-Written c heap testnet base_data_tag more spare (omega arith) (omega arith)
      (Written-map old_base_data (base_data-Written c heap testnet r address f h))
unpack-pack c heap testnet (asset_data r) address bytes more spare f on h =
    unpack-Written c heap testnet asset_data_tag more spare (omega arith) (omega arith)
      (Written-map asset_data (asset_data-Written c heap testnet r address f h))
unpack-pack c heap testnet (bitmark_issue r) address bytes more spare f on h =
    unpack-Written c heap testnet bitmark_issue_tag more spare (omega arith) (omega arith)
      (Written-map bitmark_issue (issue-Written c heap testnet r address f h))
unpack-pack c heap testnet (bitmark_transfer_unratified r) address bytes more spare f on h =
    unpack-Written c heap testnet bitmark_transfer_unratified_tag more spare (omega arith)
      (omega arith)
      (Written-map bitmark_transfer_unratified (unratified-Written c heap testnet r address f h))
unpack-pack c heap testnet (bitmark_transfer_countersigned r) address bytes more spare f on h =
    unpack-Written c heap testnet bitmark_transfer_countersigned_tag more spare (omega arith)
      (omega arith)
      (Written-map bitmark_transfer_countersigned
        (countersigned-Written c heap testnet r address f h))
unpack-pack c heap testnet (block_foundation r) address bytes more spare f on h =
    unpack-Written c heap testnet block_foundation_tag more spare (omega arith) (omega arith)
      (Written-map block_foundation (foundation-Written c heap testnet r address f on h))
unpack-pack c heap testnet (block_owner_transfer r) address bytes more spare f on h =
    unpack-Written c heap testnet block_owner_transfer_tag more spare (omega arith) (omega arith)
      (Written-map block_owner_transfer (owner_transfer-Written c heap testnet r address f on h))
unpack-pack c heap testnet (bitmark_share r) address bytes more spare f on h =
    unpack-Written c heap testnet bitmark_share_tag more spare (omega arith) (omega arith)
      (Written-map bitmark_share (share-Written c heap testnet r address f h))
unpack-pack c heap testnet (share_grant r) address bytes more spare f on h =
    unpack-Written c heap testnet share_grant_tag more spare (omega arith) (omega arith)
      (Written-map share_grant (grant-Written c heap testnet r address f h))
unpack-pack c heap testnet (share_swap r) address bytes more spare f on h =
    unpack-Written c heap testnet share_swap_tag more spare (omega arith) (omega arith)
      (Written-map share_swap (swap-Written c heap testnet r address f h))
