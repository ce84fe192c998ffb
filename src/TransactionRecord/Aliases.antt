-- ===== src/TransactionRecord/Aliases.antt =====
-- The comparison of accounts by their pointers in the checks of grants and swaps.
use bitmarkd.Common.{ℕ, ◌≤◌, ◌≡◌, ◌≢◌, arith, length, some, false}
use bitmarkd.Account.{Account, is_zero}
use bitmarkd.Go.{ok}
use bitmarkd.TransactionRecord.Types.{ShareGrant}
use bitmarkd.TransactionRecord.Check.{grant_check}

-- A grant from an account to itself passes the check whenever the owner and the recipient are two
-- pointers, as they are in every record that Unpack builds. The account is not zero, the quantity
-- is at least 1, and the signatures have 1024 bytes at most.
pub grant_check_self :
    (r : ShareGrant) (a : Account) (one two : ℕ)
    → one ≢ two
    → is_zero a ≡ false
    → 1 ≤ r.quantity
    → length r.signature ≤ 1024
    → length r.countersignature ≤ 1024
    → grant_check (record r {
      owner = some (record { location = one; target = a });
      recipient = some (record { location = two; target = a });
    })
      ≡ ok tt
unfolding grant_check
grant_check_self r a one two n z q s t = ground arith
