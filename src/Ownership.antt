-- ===== src/Ownership.antt =====
-- The package ownership: who owns which bitmark, as entries of the pools of the storage.
pub mod Data
pub mod Codec
pub mod Transfer
pub mod Index
pub mod Entries
pub mod Valid
pub mod Moves
pub mod Change
pub mod Owner
