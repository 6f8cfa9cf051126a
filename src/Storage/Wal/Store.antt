-- ===== src/Storage/Wal/Store.antt =====
-- `WalStorage`: the map in memory, the two files, `open`, `commit` and `compact`. A call of the
-- file system is taken to succeed; what a crash leaves behind is in `Crash`
-- and `Torn`, and `Backed` is the invariant.
pub mod Backed
pub mod Crash
pub mod Torn
use alefsdb.Prelude.{
  ℕ, zero, suc, ◌+◌, ◌-◌, ◌*◌, Bool, true, false, ◌&&◌, not, Option, none, some, List, [], ◌∷◌,
  ◌++◌, length, Result, ok, err, ◌>>=◌, ltb, leb, if◌then◌else◌,
}
use alefsdb.Prelude.Order.{nat_ord, list_ord}
use alefsdb.Prelude.OrdMap.{get}
use alefsdb.Bytes.{Bytes}
use alefsdb.Storage.Batch.{WriteBatch, ByteMap, apply_ops}
use alefsdb.Storage.Batch.Scan.{scan_prefix}
use alefsdb.Storage.Wal.Errors.{StorageError}
use alefsdb.Storage.Wal.Record.{encode_commit_record}
use alefsdb.Storage.Wal.Replay.{replay_wal}
use alefsdb.Storage.Wal.Checkpoint.{encode_checkpoint, load_checkpoint}

-- The files `wal.log` and `checkpoint.bin` of the directory, where they exist.
pub record Disk : Type 0 where
  pub wal : Option Bytes
  pub checkpoint : Option Bytes

abbrev pub empty_disk : Disk
empty_disk = record { wal = none; checkpoint = none }

pub record WalStorage : Type 0 where
  pub disk : Disk
  pub map : ByteMap
  pub wal_bytes : ℕ
  pub auto_compact_threshold : ℕ

-- 8 MiB
abbrev pub default_threshold : ℕ
default_threshold = 8 * 1024 * 1024

-- The state and the log offset that the checkpoint holds, if there is one.
unfoldable pub load_base : Option Bytes → Result StorageError (ByteMap × ℕ)
load_base none = ok ([], 0)
load_base (some file) = load_checkpoint file

unfoldable pub replay_file : Option Bytes → ℕ → ByteMap → Result StorageError ByteMap
replay_file none start m = ok m
replay_file (some file) start m = replay_wal file start m

-- `create(true)`: a log that is missing is made, empty.
abbrev pub created : Option Bytes → Bytes
created none = []
created (some file) = file

unfoldable pub open_store : Disk → Result StorageError WalStorage
open_store d = do
  (base, wal_start) ← load_base d.checkpoint
  m ← replay_file d.wal wal_start base
  ok (record {
    disk = record d { wal = some (created d.wal) };
    map = m;
    wal_bytes = length (created d.wal) - wal_start;
    auto_compact_threshold = default_threshold;
  })

unfoldable pub set_auto_compact_threshold : ℕ → WalStorage → WalStorage
set_auto_compact_threshold bytes s = record s { auto_compact_threshold = bytes }

-- The checkpoint is written aside and renamed, and then the log is cut to nothing.
unfoldable pub compact : WalStorage → WalStorage
compact s = record s {
  disk = record { wal = some []; checkpoint = some (encode_checkpoint s.map 0) };
  wal_bytes = 0;
}

-- `write_all` of the record, and its effect on the map.
unfoldable pub append_record : WalStorage → WriteBatch → WalStorage
append_record s ops =
    let rec = encode_commit_record ops in
    record s {
      disk = record s.disk { wal = some (created s.disk.wal ++ rec) };
      wal_bytes = s.wal_bytes + length rec;
      map = apply_ops s.map ops;
    }

-- `batch.is_empty()`
abbrev pub is_empty : WriteBatch → Bool
is_empty [] = true
is_empty (op ∷ ops) = false

abbrev pub is_full : WalStorage → Bool
is_full s = ltb 0 s.auto_compact_threshold && leb s.auto_compact_threshold s.wal_bytes

unfoldable pub commit : WalStorage → WriteBatch → WalStorage
commit s ops =
    if is_empty ops
    then s
    else let s' = append_record s ops in if is_full s' then compact s' else s'

unfoldable pub get_value : WalStorage → Bytes → Option Bytes
get_value s key = get key s.map

unfoldable pub scan : WalStorage → Bytes → ByteMap
scan s prefix = scan_prefix prefix s.map
