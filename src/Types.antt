-- ===== src/Types.antt =====
-- The crate `alefs-types`: values, their binary encoding, and database paths.
pub mod DbPath
pub mod Value
pub mod Codec
