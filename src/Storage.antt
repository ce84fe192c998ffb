-- ===== src/Storage.antt =====
-- The package storage: a key-value database behind a write batch and a cache of what is written.
pub mod External
pub mod Access
pub mod Handle
pub mod View
pub mod Agree
pub mod Final
pub mod Expiry
