-- ===== src/Types/Codec/Errors.antt =====
-- `CodecError` and the constants of the encoding.
use alefsdb.Prelude.{ℕ}

pub data CodecError : Type 0 where
  empty_input : CodecError
  unsupported_version : ℕ → CodecError
  unexpected_eof : CodecError
  unknown_tag : ℕ → CodecError
  invalid_utf8 : CodecError
  invalid_bool : ℕ → CodecError
  trailing_bytes duplicate_set_member : CodecError

abbrev pub codec_version : ℕ
codec_version = 1
