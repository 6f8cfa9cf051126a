-- ===== src/Storage/Wal/Errors.antt =====
-- The refusals of wal.rs: each `StorageError::Corrupt` by its message, with what it prints.
use alefsdb.Prelude.{ℕ}
use alefsdb.Bytes.Reader.{Reader}

pub data StorageError : Type 0 where
  wal_offset_beyond : ℕ → ℕ → StorageError
  bad_wal_magic : ℕ → StorageError
  unsupported_wal_version : ℕ → StorageError
  empty_wal_body : StorageError
  unknown_record_type : ℕ → StorageError
  unknown_op_tag : ℕ → StorageError
  trailing_in_wal_body : StorageError
  checkpoint_too_short bad_checkpoint_magic : StorageError
  unsupported_checkpoint_version : ℕ → StorageError
  checkpoint_truncated checkpoint_checksum_mismatch checkpoint_trailing_bytes : StorageError
  unexpected_eof : StorageError

abbrev pub Read {ℓ} : Type ℓ → Type ℓ
Read A = Reader StorageError A
