-- ===== src/Util.antt =====
-- The package util: variable-length integers and base 58.
pub mod Varint
pub mod Base58
