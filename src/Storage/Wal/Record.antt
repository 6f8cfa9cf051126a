-- ===== src/Storage/Wal/Record.antt =====
-- One record of the log: `encode_commit_record`, `apply_record_body` and the primitive reads.
pub mod RoundTrip
use alefsdb.Prelude.{
  ℕ, zero, suc, ◌+◌, ◌^◌, ◌%◌, List, [], ◌∷◌, ◌++◌, length, Result, ok, err, ◌==◌, if◌then◌else◌,
}
use alefsdb.Bytes.{Bytes, le_bytes}
use alefsdb.Bytes.Reader.{Reader, pure, fail, ◌>>=◌, take_byte, take_slice, take_le}
use alefsdb.Storage.Batch.{BatchOp, put, delete, WriteBatch, ByteMap, apply_ops}
use alefsdb.Storage.Wal.Crc.{crc32}
use alefsdb.Storage.Wal.Errors.{
  StorageError, Read, unexpected_eof, empty_wal_body, unknown_record_type, unknown_op_tag,
  trailing_in_wal_body,
}

-- b"ALEF"
abbrev pub magic : Bytes
magic = b'A' ∷ b'L' ∷ b'E' ∷ b'F' ∷ []

abbrev pub wal_version : ℕ
wal_version = 1

abbrev pub rec_commit : ℕ
rec_commit = 1

abbrev pub op_put : ℕ
op_put = 1

abbrev pub op_delete : ℕ
op_delete = 2

-- `(n as u32).to_le_bytes()`
unfoldable pub u32_bytes : ℕ → Bytes
u32_bytes n = le_bytes 4 (n % 2 ^ 32)

-- A length, then the bytes.
unfoldable pub sized : Bytes → Bytes
sized s = u32_bytes (length s) ++ s

unfoldable pub encode_op : BatchOp → Bytes
encode_op (put key value) = op_put ∷ (sized key ++ sized value)
encode_op (delete key) = op_delete ∷ sized key

unfoldable pub encode_ops : WriteBatch → Bytes
encode_ops [] = []
encode_ops (op ∷ ops) = encode_op op ++ encode_ops ops

unfoldable pub record_body : WriteBatch → Bytes
record_body ops = rec_commit ∷ (u32_bytes (length ops) ++ encode_ops ops)

-- A body in its frame: magic, version, length, body, checksum.
unfoldable pub frame : Bytes → ℕ → Bytes → Bytes
frame mark version body =
    mark ++ version ∷ (u32_bytes (length body) ++ (body ++ le_bytes 4 (crc32 body)))

unfoldable pub encode_commit_record : WriteBatch → Bytes
encode_commit_record ops = frame magic wal_version (record_body ops)

unfoldable pub read_u8 : Read ℕ
unfolding take_byte
read_u8 = take_byte unexpected_eof

unfoldable pub read_int : ℕ → Read ℕ
read_int = take_le unexpected_eof

unfoldable pub read_bytes : Read Bytes
read_bytes = do len ← read_int 4; take_slice unexpected_eof len

-- One round of the loop of `apply_record_body`, from its tag on.
unfoldable pub read_op : ℕ → Read BatchOp
read_op tag =
    if tag == op_put
    then (do k ← read_bytes; v ← read_bytes; pure (put k v))
    else if tag == op_delete
    then (do k ← read_bytes; pure (delete k))
    else fail (unknown_op_tag tag)

unfoldable pub read_ops : ℕ → Read WriteBatch
read_ops zero = pure []
read_ops (suc n) = do tag ← read_u8; op ← read_op tag; ops ← read_ops n; pure (op ∷ ops)

unfoldable pub apply_read :
    ByteMap → Result StorageError (WriteBatch × Bytes) → Result StorageError ByteMap
apply_read m (ok (ops, [])) = ok (apply_ops m ops)
apply_read m (ok (ops, b ∷ bs)) = err trailing_in_wal_body
apply_read m (err e) = err e

unfoldable pub apply_record_body : Bytes → ByteMap → Result StorageError ByteMap
apply_record_body [] m = err empty_wal_body
apply_record_body (kind ∷ c) m =
    if kind == rec_commit
    then apply_read m ((do n ← read_int 4; read_ops n) c)
    else err (unknown_record_type kind)
