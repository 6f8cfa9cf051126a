-- ===== src/Types/Codec.antt =====
-- The canonical binary encoding of values (crates/alefs-types/src/codec.rs).
mod Errors
pub mod Encode
pub mod Decode
pub mod Canonical
pub mod Sorting
pub mod RoundTrip
pub use Errors.{
  CodecError, empty_input, unsupported_version, unexpected_eof, unknown_tag, invalid_utf8,
  invalid_bool, trailing_bytes, duplicate_set_member,
}
