-- ===== src/Storage.antt =====
-- src/storage.rs: the SD card slot.
pub mod Card
pub mod Phases
pub mod HotPlug
pub mod HotPlugLaws
pub mod Listing
mod Listed
mod ListingLaws
pub mod Tests
