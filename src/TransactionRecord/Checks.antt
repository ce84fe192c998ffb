-- ===== src/TransactionRecord/Checks.antt =====
-- The checks of the records end: the loop of CheckPayments goes over the map.
use bitmarkd.Common.{ℕ, ◌≡◌, refl, arith, Bool, false, List, [], ◌∷◌}
use bitmarkd.Crypto.{Crypto}
use bitmarkd.Currency.Map.{Map}
use bitmarkd.Currency.Set.{Set, add, make_set}
use bitmarkd.Currency.Ends.{validate_address-ends}
use bitmarkd.Go.Ends.{exhausts, exhausts->>=, refuse-ends}
use bitmarkd.TransactionRecord.Types.{
  OldBaseData, AssetData, BitmarkIssue, BitmarkTransferUnratified, BitmarkTransferCountersigned,
  BlockFoundation, BlockOwnerTransfer, BitmarkShare, ShareGrant, ShareSwap,
}
use bitmarkd.TransactionRecord.Check.{
  check_payments, check_payments_loop, metadata_check, base_data_check, asset_data_check,
  issue_check, unratified_check, countersigned_check, foundation_check, owner_transfer_check,
  share_check, grant_check, swap_check,
}

check_payments_loop-ends :
    (c : Crypto) (testnet : Bool) (m : Map) (cs : Set)
    → exhausts (check_payments_loop c testnet m cs) ≡ false
unfolding check_payments_loop
check_payments_loop-ends c testnet [] cs = refl
check_payments_loop-ends c testnet ((currency, address) ∷ m) cs =
    let rest = check_payments_loop-ends c testnet m (add cs currency).0 in
    exhausts->>= _ _ (validate_address-ends c currency address testnet) (λ u. ground (arith, rest))

check_payments-ends :
    (c : Crypto) (version : ℕ) (testnet : Bool) (m : Map)
    → exhausts (check_payments c version testnet m) ≡ false
unfolding check_payments
check_payments-ends c version testnet m = exhausts->>= _ _ (refuse-ends _ _) (λ u.
    exhausts->>= _ _ (check_payments_loop-ends c testnet m (make_set [])) (λ cs. refuse-ends _ _))

metadata_check-ends : (metadata : List ℕ) → exhausts (metadata_check metadata) ≡ false
unfolding metadata_check
metadata_check-ends [] = refl
metadata_check-ends (b ∷ bs) = ground arith

pub base_data_check-ends : (r : OldBaseData) → exhausts (base_data_check r) ≡ false
unfolding base_data_check
base_data_check-ends r = ground arith

pub asset_data_check-ends : (r : AssetData) → exhausts (asset_data_check r) ≡ false
unfolding asset_data_check
asset_data_check-ends r = ground (arith, metadata_check-ends r.metadata)

pub issue_check-ends : (r : BitmarkIssue) → exhausts (issue_check r) ≡ false
unfolding issue_check
issue_check-ends r = ground arith

pub unratified_check-ends : (r : BitmarkTransferUnratified) → exhausts (unratified_check r) ≡ false
unfolding unratified_check
unratified_check-ends r = ground arith

pub countersigned_check-ends :
    (r : BitmarkTransferCountersigned) → exhausts (countersigned_check r) ≡ false
unfolding countersigned_check
countersigned_check-ends r = ground arith

pub foundation_check-ends :
    (c : Crypto) (r : BlockFoundation) (testnet : Bool)
    → exhausts (foundation_check c r testnet) ≡ false
unfolding foundation_check
foundation_check-ends c r testnet =
    ground (arith, check_payments-ends c r.version testnet r.payments)

pub owner_transfer_check-ends :
    (c : Crypto) (r : BlockOwnerTransfer) (testnet : Bool)
    → exhausts (owner_transfer_check c r testnet) ≡ false
unfolding owner_transfer_check
owner_transfer_check-ends c r testnet =
    ground (arith, check_payments-ends c r.version testnet r.payments)

pub share_check-ends : (r : BitmarkShare) → exhausts (share_check r) ≡ false
unfolding share_check
share_check-ends r = ground arith

pub grant_check-ends : (r : ShareGrant) → exhausts (grant_check r) ≡ false
unfolding grant_check
grant_check-ends r = ground arith

pub swap_check-ends : (r : ShareSwap) → exhausts (swap_check r) ≡ false
unfolding swap_check
swap_check-ends r = ground arith
