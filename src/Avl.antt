-- ===== src/Avl.antt =====
-- The package avl: a balanced tree that counts the nodes below each node.
pub mod Key
pub mod Node
pub mod Rotate
pub mod Insert
pub mod Delete
pub mod Search
pub mod Invariant
pub mod Grow
pub mod Shrink
pub mod Sorted
pub mod Entries
pub mod Refine
pub mod Order
pub mod Valid
pub mod Rank
pub mod Height
pub mod Counts
pub mod Built
