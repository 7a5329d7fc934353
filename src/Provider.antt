-- ===== src/Provider.antt =====
-- A provider node: concurrency slots, cooperative inference, duplicate tasks, QoS, recovery and health.
pub mod Concurrency
pub mod Cooperation
pub mod Idempotency
pub mod Scheduler
pub mod Recovery
pub mod Health
mod Tests
mod HealthTests
