-- ===== src/Peers.antt =====
-- The mesh of peers and its restricted trust domains: src/restricted_membership.rs and src/peer_manager.rs.
pub mod Membership
pub mod Manager
pub mod Table
pub mod Exchange
pub mod Gossip
pub mod Election
mod Tests
mod ElectionTests
