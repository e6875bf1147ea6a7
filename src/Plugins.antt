-- ===== src/Plugins.antt =====
-- The plugins that the core registers for Shadowsocks: ssr.go and obfs.go.
pub mod Ssr
pub mod Obfs
mod Tests
