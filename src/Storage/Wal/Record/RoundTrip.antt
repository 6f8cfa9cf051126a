-- ===== src/Storage/Wal/Record/RoundTrip.antt =====
-- The body of a record against its reader.
use alefsdb.Prelude.{
  ℕ, ◌^◌, ◌%◌, ◌<◌, ◌≡◌, refl, [], ◌∷◌, ◌++◌, append_assoc, append-nil, length, arith, ok, All,
}
use alefsdb.Bytes.{Bytes}
use alefsdb.Bytes.Reader.{take_slice-append, take_le-append}
use alefsdb.Storage.Batch.{BatchOp, put, delete, WriteBatch, ByteMap, apply_ops}
use alefsdb.Storage.Wal.Errors.{unexpected_eof}
use alefsdb.Storage.Wal.Record.{
  u32_bytes, sized, encode_op, encode_ops, record_body, read_u8, read_int, read_bytes, read_op,
  read_ops, apply_read, apply_record_body,
}

abbrev pub OpFits : BatchOp → Type 0
OpFits (put k v) = (length k < 2 ^ 32) × (length v < 2 ^ 32)
OpFits (delete k) = length k < 2 ^ 32

-- The lengths that the record writes as 32 bits fit in them.
pub record Fits (ops : WriteBatch) : Type 0 where
  pub count : length ops < 2 ^ 32
  pub each : All OpFits ops
  pub body : length (record_body ops) < 2 ^ 32

pub read_int-u32_bytes :
    (n : ℕ) (rest : Bytes) → n < 2 ^ 32 → read_int 4 (u32_bytes n ++ rest) ≡ ok (n, rest)
unfolding read_int u32_bytes
read_int-u32_bytes n rest h =
    let e : n % 2 ^ 32 ≡ n = omega arith in rw e (take_le-append unexpected_eof 4 n rest h)

pub read_bytes-sized :
    (s rest : Bytes) → length s < 2 ^ 32 → read_bytes (sized s ++ rest) ≡ ok (s, rest)
unfolding read_bytes sized
read_bytes-sized s rest h = simp (
  append_assoc,
  read_int-u32_bytes (length s) (s ++ rest) h,
  take_slice-append unexpected_eof (length s) s rest refl,
)

read_ops-encode_ops :
    (ops : WriteBatch) (rest : Bytes)
    → All OpFits ops
    → read_ops (length ops) (encode_ops ops ++ rest) ≡ ok (ops, rest)
unfolding read_ops encode_ops encode_op read_u8 read_op
read_ops-encode_ops [] rest h = refl
read_ops-encode_ops (put k v ∷ ops) rest h = simp (
  append_assoc,
  read_bytes-sized k (sized v ++ (encode_ops ops ++ rest)) h.0.0,
  read_bytes-sized v (encode_ops ops ++ rest) h.0.1,
  read_ops-encode_ops ops rest h.1,
)
read_ops-encode_ops (delete k ∷ ops) rest h = simp (
  append_assoc,
  read_bytes-sized k (encode_ops ops ++ rest) h.0,
  read_ops-encode_ops ops rest h.1,
)

-- Applying a record's body applies its batch, whole and in order.
pub apply_record_body-record_body :
    (ops : WriteBatch) (m : ByteMap)
    → Fits ops
    → apply_record_body (record_body ops) m ≡ ok (apply_ops m ops)
unfolding apply_record_body record_body apply_read
apply_record_body-record_body ops m h =
    let all = rw append-nil at (read_ops-encode_ops ops [] h.each) in
    rw (read_int-u32_bytes (length ops) (encode_ops ops) h.count, all)
