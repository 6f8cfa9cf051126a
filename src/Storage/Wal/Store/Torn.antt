-- ===== src/Storage/Wal/Store/Torn.antt =====
-- A commit after a torn record: `open` leaves the torn bytes in the log, and the next record is
-- written behind them.
use alefsdb.Prelude.{
  ℕ, false, some, zero, suc, ◌+◌, ◌<◌, ◌≡◌, refl, ap, ◌∙◌, List, [], ◌∷◌, ◌++◌, append_assoc,
  length, length-append, take, arith, ok, err, All, ltb-eq-false,
}
use alefsdb.Prelude.Order.{nat_ord, list_ord}
use alefsdb.Bytes.{Bytes, le_bytes, same}
use alefsdb.Storage.Batch.{WriteBatch, ByteMap, apply_ops}
use alefsdb.Storage.Wal.Errors.{bad_wal_magic}
use alefsdb.Storage.Wal.Record.{encode_commit_record, record_body, frame, u32_bytes}
use alefsdb.Storage.Wal.Record.RoundTrip.{Fits}
use alefsdb.Storage.Wal.Replay.{refused, next_record, replay_loop, replay_wal}
use alefsdb.Storage.Wal.Replay.Logs.{encode_log, replay_loop-record, length-log-le, Stops-torn}
use alefsdb.Storage.Wal.Store.{
  Disk, WalStorage, open_store, load_base, replay_file, created, append_record, commit, is_empty,
  is_full,
}
use alefsdb.Storage.Wal.Store.Backed.{Backed, open_store-log, load_base-HoldsBase}
use alefsdb.Storage.Wal.Store.Crash.{torn_disk}

-- Behind whole records the loop refuses what `next_record` refuses.
replay_loop-refused :
    (f offset : ℕ) (log : List WriteBatch) (tail : Bytes) (m : ByteMap)
    → All Fits log
    → length log < f
    → 0 < length tail
    → ((o : ℕ) → next_record o tail ≡ refused (bad_wal_magic o))
    → (o : ℕ) × (replay_loop f offset (encode_log log ++ tail) m ≡ err (bad_wal_magic o))
unfolding encode_log
replay_loop-refused zero offset log tail m a l p h = absurd (omega arith)
replay_loop-refused (suc f) offset [] [] m a l p h = absurd (omega arith)
replay_loop-refused (suc f) offset [] (b ∷ bs) m a l p h =
    (offset, unfold replay_loop in rw (h offset, replay_loop))
replay_loop-refused (suc f) offset (ops ∷ log) tail m a l p h =
    let (o, e) =
      replay_loop-refused f (offset + (9 + length (record_body ops) + 4)) log tail (apply_ops m ops)
        a.1 (omega arith) p h in
    (
      o,
      rw (append_assoc (encode_commit_record ops) (encode_log log) tail)
          (replay_loop-record f offset ops (encode_log log ++ tail) m a.0 ∙ e),
    )

-- One to three bytes of a record and a record behind them do not start with the magic.
next_record-torn_magic :
    (o n : ℕ) (ops ops' : WriteBatch)
    → n < 3
    → next_record o (take (suc n) (encode_commit_record ops) ++ encode_commit_record ops')
      ≡ refused (bad_wal_magic o)
unfolding next_record encode_commit_record frame u32_bytes le_bytes same
next_record-torn_magic o zero ops ops' h = ground arith
next_record-torn_magic o (suc zero) ops ops' h = ground arith
next_record-torn_magic o (suc (suc zero)) ops ops' h = ground arith
next_record-torn_magic o (suc (suc (suc n))) ops ops' h = absurd (omega arith)

length-torn_pos :
    (n : ℕ) (ops : WriteBatch) (r : Bytes)
    → 0 < length (take (suc n) (encode_commit_record ops) ++ r)
unfolding encode_commit_record frame
length-torn_pos n ops r = omega arith

open_store-torn :
    (s : WalStorage) (ops : WriteBatch) (n : ℕ) (t : WalStorage)
    → Backed s
    → Fits ops
    → n < length (encode_commit_record ops)
    → open_store (torn_disk s ops n) ≡ ok t
    → t.disk ≡ torn_disk s ops n
open_store-torn s ops n t b f h opened =
    let e =
      open_store-log (torn_disk s ops n) b.base b.log (take n (encode_commit_record ops)) b.sorted
        b.holds (ap (λ w. w ++ take n (encode_commit_record ops)) b.written) b.fits
        (Stops-torn ops n f h) in
    cc (e, opened)

disk-append_record :
    (t : WalStorage) (ops : WriteBatch)
    → (append_record t ops).disk
      ≡ record t.disk { wal = some (created t.disk.wal ++ encode_commit_record ops) }
unfolding append_record
disk-append_record t ops = refl

commit-append_record :
    (t : WalStorage) (ops : WriteBatch)
    → is_empty ops ≡ false
    → is_full (append_record t ops) ≡ false
    → commit t ops ≡ append_record t ops
unfolding commit
commit-append_record t ops h k = rw (h, k)

-- After a crash of a backed store that leaves one to three bytes of the record of a batch that
-- fits, the store that opens is broken by its next commit: once a batch that is not empty is
-- committed without a compaction, the log cannot be opened any more, since the new record stands
-- behind the torn bytes, which the replay refuses as a bad magic.
pub torn_then_commit :
    (s : WalStorage) (ops ops' : WriteBatch) (n : ℕ) (t : WalStorage)
    → Backed s
    → Fits ops
    → n < 3
    → open_store (torn_disk s ops (suc n)) ≡ ok t
    → is_empty ops' ≡ false
    → is_full (append_record t ops') ≡ false
    → (o : ℕ) × (open_store (commit t ops').disk ≡ err (bad_wal_magic o))
torn_then_commit s ops ops' n t b f h opened filled room =
    let torn = take (suc n) (encode_commit_record ops) in
    let tail = torn ++ encode_commit_record ops' in
    let at_t = open_store-torn s ops (suc n) t b f (long ops) opened in
    let file : created t.disk.wal ++ encode_commit_record ops' ≡ encode_log b.log ++ tail =
      ap (λ (d : Disk). created d.wal ++ encode_commit_record ops') at_t
      ∙ append_assoc (created s.disk.wal) torn (encode_commit_record ops')
      ∙ ap (λ w. w ++ tail) b.written in
    let loaded : load_base t.disk.checkpoint ≡ ok (b.base, 0) =
      ap (λ (d : Disk). load_base d.checkpoint) at_t
      ∙ load_base-HoldsBase s.disk.checkpoint b.base b.holds b.sorted in
    let (o, bad) =
      replay_refused b.log tail b.base b.fits (length-torn_pos n ops (encode_commit_record ops'))
        (λ k. next_record-torn_magic k n ops ops' h) in
    (
      o,
      rw (commit-append_record t ops' filled room, disk-append_record t ops')
          (unfold open_store replay_file in rw (loaded, file, bad)),
    )
  where
    long : (xs : WriteBatch) → suc n < length (encode_commit_record xs)
    long xs = unfold encode_commit_record frame u32_bytes le_bytes in omega arith

    replay_refused :
        (log : List WriteBatch) (tail : Bytes) (m : ByteMap)
        → All Fits log
        → 0 < length tail
        → ((k : ℕ) → next_record k tail ≡ refused (bad_wal_magic k))
        → (o : ℕ) × (replay_wal (encode_log log ++ tail) 0 m ≡ err (bad_wal_magic o))
    replay_refused log tail m a p r =
        let file = encode_log log ++ tail in
        let (o, e) =
          replay_loop-refused (suc (length file)) 0 log tail m a
            (omega (arith, length-log-le log, length-append {0} (encode_log log) tail)) p r in
        (o, unfold replay_wal in rw (ltb-eq-false (length file) 0 (omega arith)) e)
