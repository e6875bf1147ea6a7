-- ===== src/Tun.antt =====
-- tun.go: the handler of the packets and connections that the tun device gives.
pub mod Inbound
pub mod Owner
pub mod Lock
pub mod Relay
pub mod Ping
pub mod Setup
mod Tests
