-- ===== src/Storage/Wal/Replay/Logs.antt =====
-- The loop over a log of whole records, with anything behind them.
use alefsdb.Prelude.{
  ℕ, zero, suc, ◌+◌, ◌≤◌, ◌<◌, ◌≡◌, refl, ◌∙◌, sym, List, [], ◌∷◌, ◌++◌, append_assoc, append-nil,
  length, length-append, take, arith, Result, ok, err, ◌>>=◌, All, ltb-eq-false,
}
use alefsdb.Bytes.{Bytes}
use alefsdb.Storage.Batch.{WriteBatch, ByteMap, apply_ops}
use alefsdb.Storage.Wal.Errors.{StorageError}
use alefsdb.Storage.Wal.Record.{frame, record_body, encode_commit_record, apply_record_body}
use alefsdb.Storage.Wal.Record.RoundTrip.{Fits, apply_record_body-record_body}
use alefsdb.Storage.Wal.Replay.{
  Next, finished, refused, whole, next_record, replay_loop, replay_wal,
}
use alefsdb.Storage.Wal.Replay.Frames.{next_record-frame, next_record-torn}

-- The file after the commits of a log.
unfoldable pub encode_log : List WriteBatch → Bytes
encode_log [] = []
encode_log (ops ∷ log) = encode_commit_record ops ++ encode_log log

-- The effect of a log, batch by batch.
unfoldable pub apply_log : ByteMap → List WriteBatch → ByteMap
apply_log m [] = m
apply_log m (ops ∷ log) = apply_log (apply_ops m ops) log

-- The bytes end the loop wherever they stand.
abbrev pub Stops : Bytes → Type 0
Stops tail = (offset : ℕ) → next_record offset tail ≡ finished

replay_loop-Stops :
    (f offset : ℕ) (tail : Bytes) (m : ByteMap) → Stops tail → replay_loop f offset tail m ≡ ok m
unfolding replay_loop
replay_loop-Stops zero offset tail m h = refl
replay_loop-Stops (suc f) offset [] m h = refl
replay_loop-Stops (suc f) offset (b ∷ bs) m h = rw (h offset, replay_loop)

next_on : ℕ → ℕ → ByteMap → Next → Result StorageError ByteMap
next_on f offset m finished = ok m
next_on f offset m (refused e) = err e
next_on f offset m (whole body rest) =
    apply_record_body body m >>= λ m'. replay_loop f (offset + (9 + length body + 4)) rest m'

replay_loop-next :
    (f offset : ℕ) (buf : Bytes) (m : ByteMap)
    → 0 < length buf
    → replay_loop (suc f) offset buf m ≡ next_on f offset m (next_record offset buf)
unfolding replay_loop next_on
replay_loop-next f offset [] m h = absurd (omega arith)
replay_loop-next f offset (b ∷ bs) m h = ground arith

length-record_pos :
    (ops : WriteBatch) (rest : Bytes) → 0 < length (encode_commit_record ops ++ rest)
unfolding encode_commit_record frame
length-record_pos ops rest = omega arith

-- A whole record is applied, and the loop goes on behind it.
pub replay_loop-record :
    (f offset : ℕ) (ops : WriteBatch) (rest : Bytes) (m : ByteMap)
    → Fits ops
    → replay_loop (suc f) offset (encode_commit_record ops ++ rest) m
      ≡ replay_loop f (offset + (9 + length (record_body ops) + 4)) rest (apply_ops m ops)
replay_loop-record f offset ops rest m h =
    replay_loop-next f offset (encode_commit_record ops ++ rest) m (length-record_pos ops rest)
    ∙ (unfold encode_commit_record next_on in
        rw (
          next_record-frame offset (record_body ops) rest h.body,
          apply_record_body-record_body ops m h,
        ))

pub replay_loop-log :
    (f offset : ℕ) (log : List WriteBatch) (tail : Bytes) (m : ByteMap)
    → All Fits log
    → Stops tail
    → length log < f
    → replay_loop f offset (encode_log log ++ tail) m ≡ ok (apply_log m log)
unfolding encode_log apply_log
replay_loop-log f offset [] tail m a h l = replay_loop-Stops f offset tail m h
replay_loop-log zero offset (ops ∷ log) tail m a h l = absurd (omega arith)
replay_loop-log (suc f) offset (ops ∷ log) tail m a h l = rw append_assoc (
    replay_loop-record f offset ops (encode_log log ++ tail) m a.0
    ∙ replay_loop-log f (offset + (9 + length (record_body ops) + 4)) log tail (apply_ops m ops) a.1
        h (omega arith))

pub length-log-le : (log : List WriteBatch) → length log ≤ length (encode_log log)
unfolding encode_log
length-log-le [] = omega arith
length-log-le (ops ∷ log) = omega (
  arith,
  length-log-le log,
  length-record_pos ops [],
  length-append {0} (encode_commit_record ops) (encode_log log),
  length-append {0} (encode_commit_record ops) [],
)

-- The replay of a file of whole records of batches that fit, with bytes behind them at which the
-- loop stops, applies the records and leaves the rest out.
pub replay_wal-log :
    (log : List WriteBatch) (tail : Bytes) (m : ByteMap)
    → All Fits log
    → Stops tail
    → replay_wal (encode_log log ++ tail) 0 m ≡ ok (apply_log m log)
unfolding replay_wal
replay_wal-log log tail m a h =
    let file = encode_log log ++ tail in
    rw (ltb-eq-false (length file) 0 (omega arith)) (
      replay_loop-log (suc (length file)) 0 log tail m a h
        (omega (arith, length-log-le log, length-append {0} (encode_log log) tail)))

pub Stops-nil : Stops []
unfolding next_record
Stops-nil offset = refl

-- A record of which only the first bytes were written ends the loop.
pub Stops-torn :
    (ops : WriteBatch) (n : ℕ)
    → Fits ops
    → n < length (encode_commit_record ops)
    → Stops (take n (encode_commit_record ops))
unfolding encode_commit_record
Stops-torn ops n h k offset = next_record-torn offset (record_body ops) n h.body k

pub encode_log-append :
    (log : List WriteBatch) (ops : WriteBatch)
    → encode_log (log ++ ops ∷ []) ≡ encode_log log ++ encode_commit_record ops
unfolding encode_log
encode_log-append [] ops = append-nil (encode_commit_record ops)
encode_log-append (x ∷ log) ops =
    rw (encode_log-append log ops)
      (sym (append_assoc (encode_commit_record x) (encode_log log) (encode_commit_record ops)))

pub apply_log-append :
    (m : ByteMap) (log : List WriteBatch) (ops : WriteBatch)
    → apply_log m (log ++ ops ∷ []) ≡ apply_ops (apply_log m log) ops
unfolding apply_log
apply_log-append m [] ops = refl
apply_log-append m (x ∷ log) ops = apply_log-append (apply_ops m x) log ops

pub All-append :
    (log : List WriteBatch) (ops : WriteBatch)
    → All Fits log
    → Fits ops
    → All Fits (log ++ ops ∷ [])
All-append [] ops a h = (h, tt)
All-append (x ∷ log) ops a h = (a.0, All-append log ops a.1 h)
