-- ===== src/BlockRecord.antt =====
-- The package blockrecord: the header of a block.
pub mod Header
pub mod RoundTrip
pub mod Limits
pub mod Sequence
