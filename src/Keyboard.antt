-- ===== src/Keyboard.antt =====
-- src/keyboard.rs: the keyboard's microcontroller, its keys, the battery and the backlights.
pub mod Keys
pub mod State
pub mod Reader
pub mod Battery
pub mod Laws
mod Tests
