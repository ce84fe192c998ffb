-- ===== src/TransactionRecord.antt =====
-- The package transactionrecord: the records of the block chain and their packed form.
pub mod Types
pub mod Check
pub mod Append
pub mod Pack
pub mod Reader
pub mod Unpack
pub mod Reads
pub mod Fields
pub mod Optional
pub mod Payments
pub mod Inversion
pub mod Signatures
pub mod RoundTrip
pub mod Aliases
pub mod Checks
pub mod Ends
pub mod Total
