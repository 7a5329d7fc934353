-- ===== src/Lifecycle.antt =====
-- The service-lifecycle profile: src/service_lifecycle.rs and its companions.
pub mod Types
pub mod States
pub mod Store
pub mod Observer
pub mod Cancellation
pub mod Http
pub mod Accounting
pub mod Detail
pub mod Sqlite
mod Tests
mod BindingTests
mod AccountingTests
mod SqliteTests
