-- ===== src/Net.antt =====
-- src/net.rs: the keys that go to the remote host.
pub mod Keys
mod Reading
pub mod KeyLaws
pub mod Session
mod SessionLaws
pub mod Connect
mod ConnectLaws
pub mod Wifi
mod WifiLaws
pub mod Channel
pub mod ChannelLaws
mod Tests
