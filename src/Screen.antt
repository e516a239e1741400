-- ===== src/Screen.antt =====
-- src/screen.rs: the terminal's screen.
pub mod Model
pub mod Escape
pub mod Valid
pub mod Scroll
pub mod ScrollValid
pub mod Print
pub mod Action
pub mod PrintValid
pub mod SgrValid
pub mod ActionValid
pub mod ScrollRows
pub mod Rows
pub mod Colors
pub mod ColorLaws
pub mod Fonts
pub mod Terminal
pub mod Safety
pub mod Session
pub mod Cluster
mod ClusterCells
mod ClusterSteps
mod ClusterLaws
pub mod Paint
mod PaintRows
mod PaintLaws
mod Tests
