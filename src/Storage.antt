-- ===== src/Storage.antt =====
-- The crate `alefs-storage`: write batches, the storage in memory and the write-ahead log.
pub mod Batch
pub mod Memory
pub mod Wal
