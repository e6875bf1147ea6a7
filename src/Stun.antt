-- ===== src/Stun.antt =====
-- The package `stun`: the NAT discovery of RFC 5780 (stun/stun.go, and `core.go` for its result).
pub mod Server
pub mod Discovery
pub mod Session
pub mod Socks
mod Tests
