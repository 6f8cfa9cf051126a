-- ===== src/Storage/Wal/Checkpoint.antt =====
-- `write_checkpoint` and `load_checkpoint`: the whole map in one checked frame.
pub mod RoundTrip
use alefsdb.Prelude.{
  ℕ, zero, suc, ◌+◌, ◌^◌, not, List, [], ◌∷◌, ◌++◌, length, take, drop, Result, ok, err, ◌==◌, ltb,
  if◌then◌else◌,
}
use alefsdb.Prelude.Order.{nat_ord, list_ord}
use alefsdb.Prelude.OrdMap.{insert}
use alefsdb.Bytes.{Bytes, le_bytes, from_le, same}
use alefsdb.Bytes.Reader.{pure, ◌>>=◌}
use alefsdb.Storage.Batch.{ByteMap}
use alefsdb.Storage.Wal.Crc.{crc32}
use alefsdb.Storage.Wal.Errors.{
  StorageError, Read, checkpoint_too_short, bad_checkpoint_magic, unsupported_checkpoint_version,
  checkpoint_truncated, checkpoint_checksum_mismatch, checkpoint_trailing_bytes,
}
use alefsdb.Storage.Wal.Record.{u32_bytes, sized, frame, read_int, read_bytes}
use alefsdb.Storage.Wal.Replay.{byte_at}

-- b"CKPT"
abbrev pub checkpoint_magic : Bytes
checkpoint_magic = b'C' ∷ b'K' ∷ b'P' ∷ b'T' ∷ []

abbrev pub checkpoint_version : ℕ
checkpoint_version = 1

unfoldable pub encode_rows : ByteMap → Bytes
encode_rows [] = []
encode_rows ((k, v) ∷ m) = sized k ++ (sized v ++ encode_rows m)

unfoldable pub checkpoint_body : ByteMap → ℕ → Bytes
checkpoint_body m wal_offset = le_bytes 8 wal_offset ++ (u32_bytes (length m) ++ encode_rows m)

-- The file that `write_checkpoint` leaves.
unfoldable pub encode_checkpoint : ByteMap → ℕ → Bytes
encode_checkpoint m wal_offset =
    frame checkpoint_magic checkpoint_version (checkpoint_body m wal_offset)

-- The loop of `map.insert`.
unfoldable pub read_rows : ℕ → ByteMap → Read ByteMap
read_rows zero m = pure m
read_rows (suc n) m = do k ← read_bytes; v ← read_bytes; read_rows n (insert k v m)

unfoldable pub read_state : Read (ByteMap × ℕ)
read_state = do wal_offset ← read_int 8; n ← read_int 4; m ← read_rows n []; pure (m, wal_offset)

unfoldable pub end_state :
    Result StorageError ((ByteMap × ℕ) × Bytes) → Result StorageError (ByteMap × ℕ)
end_state (ok (state, [])) = ok state
end_state (ok (state, b ∷ bs)) = err checkpoint_trailing_bytes
end_state (err e) = err e

-- The tests from the length of the body on.
unfoldable pub load_body : ℕ → Bytes → Result StorageError (ByteMap × ℕ)
load_body body_len buf =
    if ltb (length buf) (9 + body_len + 4)
    then err checkpoint_truncated
    else if not (crc32 (take body_len (drop 9 buf)) == from_le (take 4 (drop (9 + body_len) buf)))
    then err checkpoint_checksum_mismatch
    else end_state (read_state (take body_len (drop 9 buf)))

unfoldable pub load_checkpoint : Bytes → Result StorageError (ByteMap × ℕ)
load_checkpoint buf =
    if ltb (length buf) 9
    then err checkpoint_too_short
    else if not (same (take 4 buf) checkpoint_magic)
    then err bad_checkpoint_magic
    else if not (byte_at buf 4 == checkpoint_version)
    then err (unsupported_checkpoint_version (byte_at buf 4))
    else load_body (from_le (take 4 (drop 5 buf))) buf
