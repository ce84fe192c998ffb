-- ===== src/TransactionRecord/RoundTrip.antt =====
-- Unpack reads back what Pack wrote, for each kind of record.
pub mod Written
pub mod BaseData
pub mod Asset
pub mod Issue
pub mod Unratified
pub mod Share
pub mod Countersigned
pub mod Foundation
pub mod OwnerTransfer
pub mod Grant
pub mod Swap
pub mod Whole
