-- ===== src/Storage/Wal.antt =====
-- The write-ahead log (crates/alefs-storage/src/wal.rs).
pub mod Crc
pub mod Errors
pub mod Record
pub mod Frame
pub mod Replay
pub mod Checkpoint
pub mod Store
