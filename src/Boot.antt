-- ===== src/Boot.antt =====
-- src/main.rs and src/rng.rs: the start of the program.
pub mod Rng
pub mod Main
mod MainLaws
mod Tests
