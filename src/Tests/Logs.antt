-- ===== src/Tests/Logs.antt =====
-- Batches, log files and crashes of crates/alefs-storage/src.
use alefsdb.Prelude.{length-take-le}
use alefsdb.Storage.Wal.Replay.Fuel.{replay_loop-fuel}
use alefsdb.Storage.Wal.Replay.{replay_loop}
use alefsdb.Prelude.{
  ℕ, ◌≡◌, ◌<◌, refl, [], ◌∷◌, ◌++◌, ok, err, false, some, none, arith, length, take, if◌then◌else◌,
  ltb,
}
use alefsdb.Prelude.Order.{nat_ord, list_ord, cmp_list}
use alefsdb.Prelude.OrdMap.{insert, remove, get, Sorted}
use alefsdb.Bytes.{text, le_bytes, starts_with}
use alefsdb.Storage.Batch.{put, delete, WriteBatch, ByteMap, apply_op, apply_ops}
use alefsdb.Storage.Batch.Scan.{scan_prefix, prefixed, scan_prefix-eq-prefixed}
use alefsdb.Storage.Batch.Replay.{effect, apply_ops_twice, get-apply_ops}
use alefsdb.Storage.Wal.Errors.{bad_wal_magic}
use alefsdb.Storage.Wal.Record.{
  encode_commit_record, record_body, encode_ops, encode_op, sized, u32_bytes, frame,
}
use alefsdb.Storage.Wal.Record.RoundTrip.{Fits}
use alefsdb.Storage.Wal.Replay.{replay_wal, replay_loop, next_record}
use alefsdb.Storage.Wal.Replay.Logs.{encode_log, apply_log, replay_wal-log, Stops-torn}
use alefsdb.Storage.Wal.Checkpoint.{
  encode_checkpoint, checkpoint_body, encode_rows, load_checkpoint,
}
use alefsdb.Storage.Wal.Checkpoint.RoundTrip.{MapFits, load_checkpoint-encode_checkpoint}
use alefsdb.Storage.Wal.Store.{
  WalStorage, empty_disk, open_store, load_base, replay_file, commit, append_record, is_full,
}
use alefsdb.Storage.Wal.Store.Backed.{Backed, open_store-Backed, commit-Backed}
use alefsdb.Storage.Wal.Store.Crash.{
  torn_disk, half_compacted, Recovers, commit_atomic, compact_crash_safe,
}
use alefsdb.Storage.Wal.Store.Torn.{torn_then_commit}

-- Two rows under one prefix and one elsewhere.
abbrev rows : ByteMap
rows = (text "user/a", 1 ∷ []) ∷ (text "user/b", 2 ∷ []) ∷ (text "z", 3 ∷ []) ∷ []

rows-Sorted : Sorted rows
unfolding cmp_list text
rows-Sorted = ((refl, (refl, tt)), ((refl, tt), (tt, tt)))

scan_user : scan_prefix (text "user/") rows ≡ (text "user/a", 1 ∷ []) ∷ (text "user/b", 2 ∷ []) ∷ []
unfolding scan_prefix cmp_list text starts_with
scan_user = refl

scan_prefix-eq-prefixed_example : scan_prefix (text "user/") rows ≡ prefixed (text "user/") rows
scan_prefix-eq-prefixed_example = scan_prefix-eq-prefixed (text "user/") rows rows-Sorted

-- One row is written and another removed.
abbrev batch : WriteBatch
batch = put (text "user/a") (9 ∷ []) ∷ delete (text "z") ∷ []

batch-Fits : Fits batch
unfolding record_body encode_ops encode_op sized u32_bytes le_bytes text
batch-Fits = record {
  count = omega arith;
  each = ((omega arith, omega arith), (omega arith, tt));
  body = omega arith;
}

apply_ops_twice_example : apply_ops (apply_ops rows batch) batch ≡ apply_ops rows batch
apply_ops_twice_example = apply_ops_twice rows batch rows-Sorted

get-apply_ops_example :
    get (text "z") (apply_ops rows batch) ≡ effect (text "z") (get (text "z") rows) batch
get-apply_ops_example = get-apply_ops (text "z") rows batch rows-Sorted

rows-MapFits : MapFits rows
unfolding checkpoint_body encode_rows sized u32_bytes le_bytes text
rows-MapFits = record {
  count = omega arith;
  rows = (omega arith, omega arith, (omega arith, omega arith, (omega arith, omega arith, tt)));
  body = omega arith;
}

load_checkpoint-encode_checkpoint_example :
    load_checkpoint (encode_checkpoint rows 0) ≡ ok (rows, 0)
load_checkpoint-encode_checkpoint_example =
    load_checkpoint-encode_checkpoint rows rows-MapFits rows-Sorted

replay_wal-log_example :
    replay_wal (encode_log (batch ∷ batch ∷ []) ++ take 12 (encode_commit_record batch)) 0 rows
    ≡ ok (apply_log rows (batch ∷ batch ∷ []))
replay_wal-log_example =
    replay_wal-log (batch ∷ batch ∷ []) (take 12 (encode_commit_record batch)) rows
      (batch-Fits, (batch-Fits, tt)) (Stops-torn batch 12 batch-Fits twelve)
  where
    twelve : 12 < length (encode_commit_record batch)
    twelve = unfold encode_commit_record frame u32_bytes record_body le_bytes in omega arith

-- A store with `rows` in its checkpoint and an empty log.
abbrev store : WalStorage
store = record {
  disk = record { wal = some []; checkpoint = some (encode_checkpoint rows 0) };
  map = rows;
  wal_bytes = 0;
  auto_compact_threshold = 0;
}

abbrev store-Backed : Backed store
unfolding encode_log apply_log
store-Backed = record {
  base = rows;
  log = [];
  sorted = rows-Sorted;
  holds = (refl, rows-MapFits);
  written = refl;
  fits = tt;
  result = refl;
}

open_store-Backed_example :
    (t : WalStorage) × (open_store store.disk ≡ ok t) × (t.map ≡ rows) × Backed t
open_store-Backed_example = open_store-Backed store store-Backed

changed-MapFits : MapFits (apply_ops rows batch)
unfolding apply_ops apply_op insert remove cmp_list checkpoint_body encode_rows sized u32_bytes
    le_bytes text
changed-MapFits = record {
  count = omega arith;
  rows = (omega arith, omega arith, (omega arith, omega arith, tt));
  body = omega arith;
}

commit-Backed_example : Backed (commit store batch)
commit-Backed_example = commit-Backed store batch store-Backed batch-Fits changed-MapFits

commit_atomic_example :
    Recovers
      (torn_disk store batch 5)
      (if ltb 5 (length (encode_commit_record batch)) then rows else apply_ops rows batch)
commit_atomic_example = commit_atomic store batch 5 store-Backed batch-Fits

compact_crash_safe_example : Recovers (half_compacted store) rows
compact_crash_safe_example = compact_crash_safe store store-Backed rows-MapFits

-- A store in a new directory.
abbrev blank : WalStorage
blank = record { disk = empty_disk; map = []; wal_bytes = 0; auto_compact_threshold = 0 }

abbrev blank-Backed : Backed blank
unfolding encode_log apply_log
blank-Backed = record {
  base = [];
  log = [];
  sorted = tt;
  holds = refl;
  written = refl;
  fits = tt;
  result = refl;
}

-- The store that opens on one byte of a record.
abbrev reopened : WalStorage
reopened = record {
  disk = record { wal = some (b'A' ∷ []); checkpoint = none };
  map = [];
  wal_bytes = 1;
  auto_compact_threshold = 8388608;
}

reopens : open_store (torn_disk blank batch 1) ≡ ok reopened
unfolding open_store load_base replay_file replay_wal replay_loop next_record encode_commit_record
    frame
reopens = refl

stays_small : is_full (append_record reopened batch) ≡ false
unfolding append_record encode_commit_record frame record_body encode_ops encode_op sized u32_bytes
    le_bytes text
stays_small = refl

torn_then_commit_example :
    (o : ℕ) × (open_store (commit reopened batch).disk ≡ err (bad_wal_magic o))
torn_then_commit_example =
    torn_then_commit blank batch batch 0 reopened blank-Backed batch-Fits (omega arith) reopens refl
      stays_small

replay_loop-fuel_example :
    replay_loop 100 0 (take 12 (encode_commit_record batch)) rows
    ≡ replay_loop 200 0 (take 12 (encode_commit_record batch)) rows
replay_loop-fuel_example =
    replay_loop-fuel 100 200 0 (take 12 (encode_commit_record batch)) rows
      (omega (arith, length-take-le 12 (encode_commit_record batch)))
      (omega (arith, length-take-le 12 (encode_commit_record batch)))
