-- ===== src/Logging.antt =====
-- src/logging.rs: the serial console, in both directions.
pub mod Serial
pub mod Reader
mod ReaderLaws
pub mod SerialLaws
pub mod Uart
mod UartLaws
mod Tests
