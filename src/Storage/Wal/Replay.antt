-- ===== src/Storage/Wal/Replay.antt =====
-- `replay_wal`: the log from an offset on, record by record, up to its end or to the first record
-- that is not whole.
pub mod Frames
pub mod Logs
pub mod Fuel
use alefsdb.Prelude.{
  ℕ, zero, suc, ◌+◌, ◌^◌, not, List, [], ◌∷◌, ◌++◌, length, take, drop, Result, ok, err, ◌>>=◌,
  ◌==◌, ltb, if◌then◌else◌,
}
use alefsdb.Bytes.{Bytes, from_le, same}
use alefsdb.Storage.Batch.{WriteBatch, ByteMap, apply_ops}
use alefsdb.Storage.Wal.Crc.{crc32}
use alefsdb.Storage.Wal.Errors.{
  StorageError, wal_offset_beyond, bad_wal_magic, unsupported_wal_version,
}
use alefsdb.Storage.Wal.Record.{magic, wal_version, apply_record_body, encode_commit_record}

-- `buf[i]` of an index in range.
abbrev pub byte_at : Bytes → ℕ → ℕ
byte_at [] i = 0
byte_at (b ∷ bs) zero = b
byte_at (b ∷ bs) (suc i) = byte_at bs i

-- What a round of the loop finds: `break`, an error, or a record and what follows it.
pub data Next : Type 0 where
  finished : Next
  refused : StorageError → Next
  whole : Bytes → Bytes → Next

-- The tests from `rec_end` on, for a body of `body_len` bytes.
unfoldable pub next_body : ℕ → Bytes → Next
next_body body_len buf =
    if ltb (length buf) (9 + body_len + 4)
    then finished
    else if not (crc32 (take body_len (drop 9 buf)) == from_le (take 4 (drop (9 + body_len) buf)))
    then finished
    else whole (take body_len (drop 9 buf)) (drop (9 + body_len + 4) buf)

unfoldable pub next_record : ℕ → Bytes → Next
next_record offset buf =
    if ltb (length buf) 9
    then finished
    else if not (same (take 4 buf) magic)
    then refused (bad_wal_magic offset)
    else if not (byte_at buf 4 == wal_version)
    then refused (unsupported_wal_version (byte_at buf 4))
    else next_body (from_le (take 4 (drop 5 buf))) buf

-- The loop, on fuel: a round takes a record of 13 bytes at least.
unfoldable pub replay_loop : ℕ → ℕ → Bytes → ByteMap → Result StorageError ByteMap
replay_loop zero offset buf m = ok m
replay_loop (suc f) offset [] m = ok m
replay_loop (suc f) offset (b ∷ bs) m = elim (next_record offset (b ∷ bs)) [
  | finished ↦ ok m
  | refused e ↦ err e
  | whole body rest ↦
      apply_record_body body m >>= λ m'. replay_loop f (offset + (9 + length body + 4)) rest m'
]

unfoldable pub replay_wal : Bytes → ℕ → ByteMap → Result StorageError ByteMap
replay_wal file start m =
    if ltb (length file) start
    then err (wal_offset_beyond start (length file))
    else replay_loop (suc (length file)) start (drop start file) m
