-- ===== src/Peer.antt =====
-- The package peer, of which the election of a peer to synchronise with is modelled.
pub mod Voting
pub mod Tally
pub mod Draw
pub mod Elected
