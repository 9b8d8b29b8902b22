-- ===== src/Ring.antt =====
-- include/core/ring_buffer.h: the lock-free ring queues and their batch wrapper.
pub mod Size
pub mod Queue
pub mod Spsc
pub mod Mpmc
pub mod Batch
mod Tests
