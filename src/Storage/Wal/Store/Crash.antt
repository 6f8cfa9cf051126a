-- ===== src/Storage/Wal/Store/Crash.antt =====
-- What `open` recovers from the files that a crash leaves, during a commit and during a compaction.
use alefsdb.Prelude.{
  ℕ, zero, suc, ltb-eq-true, ltb-eq-false, ◌<◌, ◌≤◌, ◌≡◌, refl, ap, ◌∙◌, sym, some, List, [], ◌∷◌,
  ◌++◌, append-nil, length, take, arith, ok, if◌then◌else◌, ltb,
}
use alefsdb.Prelude.Order.{nat_ord, list_ord}
use alefsdb.Prelude.OrdMap.{Sorted}
use native.Mathlib.Decide.{dec_lt}
use alefsdb.Storage.Batch.{WriteBatch, ByteMap, apply_ops}
use alefsdb.Storage.Batch.Replay.{apply_ops-append, apply_ops_twice}
use alefsdb.Storage.Wal.Record.{encode_commit_record}
use alefsdb.Storage.Wal.Record.RoundTrip.{Fits}
use alefsdb.Storage.Wal.Replay.Logs.{encode_log, apply_log, Stops-nil, Stops-torn}
use alefsdb.Storage.Wal.Checkpoint.{encode_checkpoint}
use alefsdb.Storage.Wal.Checkpoint.RoundTrip.{MapFits}
use alefsdb.Storage.Wal.Store.{Disk, WalStorage, open_store, created, append_record}
use alefsdb.Storage.Wal.Store.Backed.{
  Backed, open_store-log, open_store-Backed, append_record-Backed, map-Sorted,
}

-- The files when the first `n` bytes of a commit's record are written.
abbrev pub torn_disk : WalStorage → WriteBatch → ℕ → Disk
torn_disk s ops n = record s.disk {
  wal = some (created s.disk.wal ++ take n (encode_commit_record ops));
}

-- The map that `open` finds in some files.
abbrev pub Recovers : Disk → ByteMap → Type 0
Recovers d m = (t : WalStorage) × (open_store d ≡ ok t) × (t.map ≡ m)

take-all {ℓ} : {A : Type ℓ} (n : ℕ) (xs : List A) → length xs ≤ n → take n xs ≡ xs
take-all zero [] h = refl
take-all zero (x ∷ xs) h = absurd (omega arith)
take-all (suc n) [] h = refl
take-all (suc n) (x ∷ xs) h = ap (λ r. x ∷ r) (take-all n xs (omega arith))

torn_before :
    (s : WalStorage) (ops : WriteBatch) (n : ℕ)
    → Backed s
    → Fits ops
    → n < length (encode_commit_record ops)
    → Recovers (torn_disk s ops n) s.map
torn_before s ops n b f h = (
  _,
  open_store-log (torn_disk s ops n) b.base b.log (take n (encode_commit_record ops)) b.sorted
      b.holds (ap (λ w. w ++ take n (encode_commit_record ops)) b.written) b.fits
      (Stops-torn ops n f h),
  sym b.result,
)

torn_after :
    (s : WalStorage) (ops : WriteBatch) (n : ℕ)
    → Backed s
    → Fits ops
    → length (encode_commit_record ops) ≤ n
    → Recovers (torn_disk s ops n) (apply_ops s.map ops)
torn_after s ops n b f h =
    let whole = take-all n (encode_commit_record ops) h in
    let (t, opened, m, _) =
      open_store-Backed (append_record s ops) (append_record-Backed s ops b f) in
    unfold append_record in rw whole (t, opened, m)

-- A crash while a backed store writes the record of a batch that fits leaves files from which
-- `open` recovers the map before the commit, or, if all of the record was written, the map after
-- it; never a part of the batch.
pub commit_atomic :
    (s : WalStorage) (ops : WriteBatch) (n : ℕ)
    → Backed s
    → Fits ops
    → Recovers
        (torn_disk s ops n)
        (if ltb n (length (encode_commit_record ops)) then s.map else apply_ops s.map ops)
commit_atomic s ops n b f =
    let len = length (encode_commit_record ops) in
    elim (dec_lt n len) [
      | yes h ↦ rw (ltb-eq-true n len h) (torn_before s ops n b f h)
      | no h ↦ rw (ltb-eq-false n len (omega arith)) (torn_after s ops n b f (omega arith))
    ]

-- One batch with the operations of the log's batches.
flat : List WriteBatch → WriteBatch
flat [] = []
flat (ops ∷ log) = ops ++ flat log

apply_log-flat : (m : ByteMap) (log : List WriteBatch) → apply_log m log ≡ apply_ops m (flat log)
unfolding apply_log flat
apply_log-flat m [] = unfold apply_ops in refl
apply_log-flat m (ops ∷ log) =
    apply_log-flat (apply_ops m ops) log ∙ sym (apply_ops-append m ops (flat log))

apply_log_twice :
    (m : ByteMap) (log : List WriteBatch)
    → Sorted m
    → apply_log (apply_log m log) log ≡ apply_log m log
apply_log_twice m log s =
    ap (λ r. apply_log r log) (apply_log-flat m log)
    ∙ apply_log-flat (apply_ops m (flat log)) log
    ∙ apply_ops_twice m (flat log) s
    ∙ sym (apply_log-flat m log)

-- The files when the new checkpoint is in place and the log is not cut yet.
abbrev pub half_compacted : WalStorage → Disk
half_compacted s = record s.disk { checkpoint = some (encode_checkpoint s.map 0) }

-- A crash of a backed store between the two steps of a compaction, when the new checkpoint is in
-- place and the old log is not cut yet, loses nothing: `open` recovers the map, if the map fits a
-- checkpoint.
pub compact_crash_safe :
    (s : WalStorage) → Backed s → MapFits s.map → Recovers (half_compacted s) s.map
compact_crash_safe s b f = (
  _,
  open_store-log (half_compacted s) s.map b.log [] (map-Sorted b) (refl, f)
      (b.written ∙ sym (append-nil (encode_log b.log))) b.fits Stops-nil,
  ap (λ m. apply_log m b.log) b.result ∙ apply_log_twice b.base b.log b.sorted ∙ sym b.result,
)
