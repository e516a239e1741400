-- ===== src/Heap.antt =====
-- src/heap.rs: the allocator over two regions.
pub mod Dual
pub mod Owner
mod Tests
