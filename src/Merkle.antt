-- ===== src/Merkle.antt =====
-- The package merkle: the tree of the digests of a block's transactions.
pub mod Tree
pub mod Levels
