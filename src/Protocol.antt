-- ===== src/Protocol.antt =====
-- The wire protocol: the commands and the frames of protocol/parser.rs, and the encoder of
-- persistence/resp.rs.
pub mod Text
pub mod Command
pub mod Build
pub mod Frame
pub mod RoundTrip
pub mod Args
pub mod Consumed
pub mod Encoder
pub mod Reply
mod Tests
