-- ===== src/Tests.antt =====
-- Concrete runs, and the theorems at concrete inputs.
mod Util
mod Records
mod Blocks
mod Trees
mod Storage
mod Ownership
mod Voting
mod Merkle
