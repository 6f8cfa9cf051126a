-- ===== src/Bytes.antt =====
-- Byte strings: the fixed-width integers of `to_le_bytes` and `to_be_bytes`, the texts of the
-- source as their bytes, and the test `std::str::from_utf8`.
mod Words
mod Text
pub mod Reader
pub mod Decimal
pub use Words.{byte_bounds}
unfoldable pub use Words.{le_bytes, from_le, be_bytes, from_be}
pub use Words.{length-le_bytes, from_le-le_bytes, length-be_bytes, from_be-be_bytes}
unfoldable pub use Text.{text, valid_utf8, starts_with, same}
pub use Text.{Bytes, bytes_ord, same_iff, same_refl, valid_utf8-ascii, starts_with-append}
