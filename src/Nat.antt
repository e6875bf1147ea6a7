-- ===== src/Nat.antt =====
-- The package `nat`: the system stack that rewrites TCP packets towards a local listener.
pub mod Address
pub mod Packet
pub mod Sessions
pub mod Samples
pub mod Forward
pub mod Accept
pub mod Lifetime
pub mod Opening
pub mod Udp
pub mod Device
