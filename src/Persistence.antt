-- ===== src/Persistence.antt =====
-- The append-only log: persistence/replay.rs and persistence/writer.rs. Its encoder stands in
-- Protocol/Frame.
pub mod Reader
pub mod Replay
pub mod Writer
pub mod RoundTrip
pub mod Restore
pub mod Cut
pub mod Fuel
pub mod Snapshot
mod Tests
