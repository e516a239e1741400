-- ===== src/Psram.antt =====
-- src/psram.rs: the external RAM behind the PIO, and the sizes and clocks of both RAM chips.
pub mod Device
pub mod Transfer
pub mod RoundTrip
pub mod Sizes
pub mod Pio
mod Bits
mod PioLaws
mod Exchange
mod Framing
pub mod Start
pub mod Qmi
pub mod QmiLaws
pub mod StartLaws
pub mod SelfTest
mod SelfTestLaws
pub mod Tests
