-- ===== src/Fuse.antt =====
-- The file system of crates/alefs-fuse/src/lib.rs: the table of inodes, the buffers of pending
-- writes and the text of scalars.
pub mod Inodes
pub mod Buffers
pub mod Text
