-- ===== src/Relay.antt =====
-- A relay for workers that cannot be reached: src/relay_session.rs, src/relay_ticket.rs and the relay
-- endpoints of src/node.rs.
pub mod Tickets
pub mod Sessions
pub mod Binds
pub mod Streams
pub mod Frames
mod Tests
mod StreamTests
