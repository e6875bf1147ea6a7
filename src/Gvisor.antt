-- ===== src/Gvisor.antt =====
-- The package `gvisor`: the link endpoint under the gVisor stack.
pub mod Reading
pub mod Endpoint
pub mod Udp
pub mod Stack
pub mod Tcp
mod Tests
