-- ===== src/TransactionRecord/Signatures.antt =====
-- The signatures of a record that Pack packs.
use bitmarkd.Common.{ℕ, ◌≡◌, arith, List, [], ◌++◌, ◌∙◌, some}
use bitmarkd.Account.{Account, check_signature}
use bitmarkd.Crypto.{Crypto}
use bitmarkd.Go.{ok, Pointer, Ref, deref, deref-eq-ok}
use bitmarkd.TransactionRecord.Types.{
  Transaction, old_base_data, asset_data, bitmark_issue, bitmark_transfer_unratified,
  block_foundation, bitmark_share, bitmark_transfer_countersigned, block_owner_transfer,
  share_grant, share_swap, OldBaseData, AssetData, BitmarkIssue, BitmarkTransferUnratified,
  BlockFoundation, BitmarkShare, BitmarkTransferCountersigned, BlockOwnerTransfer, ShareGrant,
  ShareSwap,
}
use bitmarkd.TransactionRecord.Append.{packed, append_bytes, valid_address}
use bitmarkd.TransactionRecord.Pack.{pack}
use bitmarkd.TransactionRecord.Pack.Single.{
  sign, base_data_message, base_data_pack, asset_data_message, asset_data_pack, issue_message,
  issue_pack, unratified_message, unratified_pack, foundation_message, foundation_pack,
  share_message, share_pack,
}
use bitmarkd.TransactionRecord.Pack.Double.{
  sign_twice, countersigned_message, countersigned_pack, owner_transfer_message,
  owner_transfer_pack, grant_message, grant_pack, swap_message, swap_pack,
}
use bitmarkd.TransactionRecord.Inversion.{
  prepare-packed, signed-packed, packed-injective, valid_address-ok,
}
use mathlib.Core.List.{append-nil}

-- `signature` is the signer's signature of what stands before it in `bytes`.
pub record SignedBy (c : Crypto) (signer : Pointer Account) (signature bytes : List ℕ)
    : Type 0 where
  pub message : List ℕ
  pub behind : List ℕ
  pub account : Ref Account
  pub is_signer : signer ≡ some account
  pub verified : check_signature c account.target message signature ≡ ok tt
  pub written : append_bytes message signature ++ behind ≡ bytes

base_data_signer :
    (c : Crypto) (r : OldBaseData) (address : Pointer Account) (am : Account × List ℕ)
    → base_data_message c r address ≡ ok am
    → valid_address address ≡ ok am.0
unfolding base_data_message
base_data_signer c r address am h = ground arith

asset_data_signer :
    (r : AssetData) (address : Pointer Account) (am : Account × List ℕ)
    → asset_data_message r address ≡ ok am
    → valid_address address ≡ ok am.0
unfolding asset_data_message
asset_data_signer r address am h = ground arith

issue_signer :
    (r : BitmarkIssue) (address : Pointer Account) (am : Account × List ℕ)
    → issue_message r address ≡ ok am
    → valid_address address ≡ ok am.0
unfolding issue_message
issue_signer r address am h = ground arith

unratified_signer :
    (c : Crypto) (r : BitmarkTransferUnratified) (address : Pointer Account) (am : Account × List ℕ)
    → unratified_message c r address ≡ ok am
    → valid_address address ≡ ok am.0
unfolding unratified_message
unratified_signer c r address am h = ground arith

foundation_signer :
    (c : Crypto) (r : BlockFoundation) (address : Pointer Account) (am : Account × List ℕ)
    → foundation_message c r address ≡ ok am
    → valid_address address ≡ ok am.0
unfolding foundation_message
foundation_signer c r address am h = ground arith

share_signer :
    (r : BitmarkShare) (address : Pointer Account) (am : Account × List ℕ)
    → share_message r address ≡ ok am
    → valid_address address ≡ ok am.0
unfolding share_message
share_signer r address am h = ground arith

countersigned_signer :
    (c : Crypto) (r : BitmarkTransferCountersigned) (address : Pointer Account)
    (am : Account × Account × List ℕ)
    → countersigned_message c r address ≡ ok am
    → valid_address address ≡ ok am.0
unfolding countersigned_message
countersigned_signer c r address am h = ground arith

owner_transfer_signer :
    (c : Crypto) (r : BlockOwnerTransfer) (address : Pointer Account)
    (am : Account × Account × List ℕ)
    → owner_transfer_message c r address ≡ ok am
    → valid_address address ≡ ok am.0
unfolding owner_transfer_message
owner_transfer_signer c r address am h = ground arith

grant_signer :
    (r : ShareGrant) (address : Pointer Account) (am : Account × Account × List ℕ)
    → grant_message r address ≡ ok am
    → deref r.owner ≡ ok am.0
unfolding grant_message
grant_signer r address am h = ground arith

swap_signer :
    (r : ShareSwap) (address : Pointer Account) (am : Account × Account × List ℕ)
    → swap_message r address ≡ ok am
    → deref r.owner_one ≡ ok am.0
unfolding swap_message
swap_signer r address am h = ground arith

sign-SignedBy :
    (c : Crypto) (signer : Pointer Account) (signature : List ℕ) (am : Account × List ℕ)
    {bytes : List ℕ} (r : Ref Account)
    → signer ≡ some r
    → r.target ≡ am.0
    → sign c signature am ≡ packed bytes
    → SignedBy c signer signature bytes
unfolding sign
sign-SignedBy c signer signature (a, message) r e t h =
    let (v, w) = signed-packed message _ _ h in
    record {
      message = message;
      behind = [];
      account = r;
      is_signer = e;
      verified = rw t v;
      written = append-nil (append_bytes message signature) ∙ packed-injective w;
    }

sign_twice-SignedBy :
    (c : Crypto) (signer : Pointer Account) (signature countersignature : List ℕ)
    (am : Account × Account × List ℕ) {bytes : List ℕ} (r : Ref Account)
    → signer ≡ some r
    → r.target ≡ am.0
    → sign_twice c signature countersignature am ≡ packed bytes
    → SignedBy c signer signature bytes
unfolding sign_twice append_bytes
sign_twice-SignedBy c signer signature countersignature (a, b, message) r e t h =
    let (v, w) = signed-packed message _ _ h in
    let (v', w') = signed-packed _ _ _ w in
    record {
      message = message;
      behind = _;
      account = r;
      is_signer = e;
      verified = rw t v;
      written = packed-injective w';
    }

-- The account that signs: the owner of a grant and the first owner of a swap, and otherwise the
-- account that Pack is given.
abbrev pub signer_of : Transaction → Pointer Account → Pointer Account
signer_of (share_grant r) address = r.owner
signer_of (share_swap r) address = r.owner_one
signer_of (old_base_data r) address = address
signer_of (asset_data r) address = address
signer_of (bitmark_issue r) address = address
signer_of (bitmark_transfer_unratified r) address = address
signer_of (bitmark_transfer_countersigned r) address = address
signer_of (block_foundation r) address = address
signer_of (block_owner_transfer r) address = address
signer_of (bitmark_share r) address = address

abbrev pub signature_of : Transaction → List ℕ
signature_of (old_base_data r) = r.signature
signature_of (asset_data r) = r.signature
signature_of (bitmark_issue r) = r.signature
signature_of (bitmark_transfer_unratified r) = r.signature
signature_of (bitmark_transfer_countersigned r) = r.signature
signature_of (block_foundation r) = r.signature
signature_of (block_owner_transfer r) = r.signature
signature_of (bitmark_share r) = r.signature
signature_of (share_grant r) = r.signature
signature_of (share_swap r) = r.signature

-- Whatever record Pack packs without an error, the signer's account has verified the record's
-- signature over exactly the bytes that stand before the signature in the packed record.
pub pack-SignedBy :
    (c : Crypto) (tx : Transaction) (address : Pointer Account) (bytes : List ℕ)
    → pack c tx address ≡ packed bytes
    → SignedBy c (signer_of tx address) (signature_of tx) bytes
unfolding pack base_data_pack asset_data_pack issue_pack unratified_pack countersigned_pack
    foundation_pack owner_transfer_pack share_pack grant_pack swap_pack
pack-SignedBy c (old_base_data r) address bytes h =
    let (am, em, sg) = prepare-packed (base_data_message c r address) _ h in
    let (s, e, t) = valid_address-ok address (base_data_signer c r address am em) in
    sign-SignedBy c address r.signature am s e t sg
pack-SignedBy c (asset_data r) address bytes h =
    let (am, em, sg) = prepare-packed (asset_data_message r address) _ h in
    let (s, e, t) = valid_address-ok address (asset_data_signer r address am em) in
    sign-SignedBy c address r.signature am s e t sg
pack-SignedBy c (bitmark_issue r) address bytes h =
    let (am, em, sg) = prepare-packed (issue_message r address) _ h in
    let (s, e, t) = valid_address-ok address (issue_signer r address am em) in
    sign-SignedBy c address r.signature am s e t sg
pack-SignedBy c (bitmark_transfer_unratified r) address bytes h =
    let (am, em, sg) = prepare-packed (unratified_message c r address) _ h in
    let (s, e, t) = valid_address-ok address (unratified_signer c r address am em) in
    sign-SignedBy c address r.signature am s e t sg
pack-SignedBy c (bitmark_transfer_countersigned r) address bytes h =
    let (am, em, sg) = prepare-packed (countersigned_message c r address) _ h in
    let (s, e, t) = valid_address-ok address (countersigned_signer c r address am em) in
    sign_twice-SignedBy c address r.signature r.countersignature am s e t sg
pack-SignedBy c (block_foundation r) address bytes h =
    let (am, em, sg) = prepare-packed (foundation_message c r address) _ h in
    let (s, e, t) = valid_address-ok address (foundation_signer c r address am em) in
    sign-SignedBy c address r.signature am s e t sg
pack-SignedBy c (block_owner_transfer r) address bytes h =
    let (am, em, sg) = prepare-packed (owner_transfer_message c r address) _ h in
    let (s, e, t) = valid_address-ok address (owner_transfer_signer c r address am em) in
    sign_twice-SignedBy c address r.signature r.countersignature am s e t sg
pack-SignedBy c (bitmark_share r) address bytes h =
    let (am, em, sg) = prepare-packed (share_message r address) _ h in
    let (s, e, t) = valid_address-ok address (share_signer r address am em) in
    sign-SignedBy c address r.signature am s e t sg
pack-SignedBy c (share_grant r) address bytes h =
    let (am, em, sg) = prepare-packed (grant_message r address) _ h in
    let (s, e, t) = deref-eq-ok r.owner (grant_signer r address am em) in
    sign_twice-SignedBy c r.owner r.signature r.countersignature am s e t sg
pack-SignedBy c (share_swap r) address bytes h =
    let (am, em, sg) = prepare-packed (swap_message r address) _ h in
    let (s, e, t) = deref-eq-ok r.owner_one (swap_signer r address am em) in
    sign_twice-SignedBy c r.owner_one r.signature r.countersignature am s e t sg
