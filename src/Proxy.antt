-- ===== src/Proxy.antt =====
-- The proxy of src/main.cpp: its connections, as objects of a heap that two file descriptors point to,
-- and the handlers of its event loop.
pub mod State
pub mod Arguments
pub mod Accept
pub mod Relay
pub mod Events
pub mod Main
pub mod Forward
pub mod Heap
pub mod Safety
mod Samples
mod Tests
mod Launch
