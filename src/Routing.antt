-- ===== src/Routing.antt =====
-- The choice of nodes before a prompt is sent.
pub mod Policy
pub mod Filter
mod Tests
