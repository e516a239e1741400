-- ===== src/Config.antt =====
-- src/config.rs and src/fixed_str.rs: the configuration in the flash, and its command.
pub mod Store
pub mod StoreLaws
pub mod ListLaws
pub mod Refusals
mod Tests
