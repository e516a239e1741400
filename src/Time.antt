-- ===== src/Time.antt =====
-- src/time.rs: the wall clock and its synchronisation.
pub mod Rfc3339
mod Rfc3339Laws
pub mod Clock
pub mod ClockLaws
pub mod Command
pub mod Sync
mod Heard
mod SyncLaws
mod Recovery
mod Tests
