-- ===== src/Config.antt =====
-- The configuration of the server: config/file.rs and persistence/config.rs.
pub mod Text
pub mod File
pub mod Directives
mod Tests
