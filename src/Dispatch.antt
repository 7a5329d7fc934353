-- ===== src/Dispatch.antt =====
-- Admission of dispatch tickets by a provider.
pub mod Admission
mod Tests
