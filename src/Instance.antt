-- ===== src/Instance.antt =====
-- v2ray.go: the life of a `V2RayInstance`, and the loading of its configuration.
pub mod Config
pub mod Life
pub mod Dialling
mod Tests
