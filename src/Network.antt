-- ===== src/Network.antt =====
-- The server: network/server.rs and network/monitor.rs.
pub mod Shared
pub mod Respond
pub mod Parameters
pub mod Info
pub mod Answers
pub mod Execute
pub mod Admission
pub mod Connection
pub mod Replies
mod Tests
