-- ===== src/Storage/Wal/Store/Backed.antt =====
-- The invariant that ties the files of a store to its map, under `open` and `commit`.
use alefsdb.Prelude.{
  ◌-◌, ◌≡◌, refl, ap, ◌∙◌, sym, Option, none, some, List, [], ◌∷◌, ◌++◌, append-nil, length, arith,
  ok, All, Bool-cases, inl, inr,
}
use alefsdb.Prelude.Order.{nat_ord, list_ord}
use alefsdb.Prelude.OrdMap.{Sorted}
use alefsdb.Bytes.{Bytes}
use alefsdb.Storage.Batch.{WriteBatch, ByteMap, apply_ops}
use alefsdb.Storage.Batch.Replay.{apply_ops-Sorted}
use alefsdb.Storage.Wal.Record.{encode_commit_record}
use alefsdb.Storage.Wal.Record.RoundTrip.{Fits}
use alefsdb.Storage.Wal.Replay.{replay_wal, replay_loop}
use alefsdb.Storage.Wal.Replay.Logs.{
  encode_log, apply_log, Stops, Stops-nil, replay_wal-log, encode_log-append, apply_log-append,
  All-append,
}
use alefsdb.Storage.Wal.Checkpoint.{encode_checkpoint, load_checkpoint}
use alefsdb.Storage.Wal.Checkpoint.RoundTrip.{MapFits, load_checkpoint-encode_checkpoint}
use alefsdb.Storage.Wal.Store.{
  Disk, WalStorage, load_base, replay_file, open_store, compact, append_record, commit, created,
  empty_disk, is_full, default_threshold,
}

-- What the checkpoint holds: nothing, or a map that fits it.
abbrev pub HoldsBase : Option Bytes → ByteMap → Type 0
HoldsBase none base = base ≡ []
HoldsBase (some file) base = (file ≡ encode_checkpoint base 0) × MapFits base

-- The log holds the batches `log`, over the checkpoint's map `base`, and the map is their result.
pub record Backed (s : WalStorage) : Type 0 where
  pub base : ByteMap
  pub log : List WriteBatch
  pub sorted : Sorted base
  pub holds : HoldsBase s.disk.checkpoint base
  pub written : created s.disk.wal ≡ encode_log log
  pub fits : All Fits log
  pub result : s.map ≡ apply_log base log

pub apply_log-Sorted : (m : ByteMap) (log : List WriteBatch) → Sorted m → Sorted (apply_log m log)
unfolding apply_log
apply_log-Sorted m [] s = s
apply_log-Sorted m (ops ∷ log) s = apply_log-Sorted (apply_ops m ops) log (apply_ops-Sorted m ops s)

pub map-Sorted : {s : WalStorage} → Backed s → Sorted s.map
map-Sorted b = rw b.result (apply_log-Sorted b.base b.log b.sorted)

pub load_base-HoldsBase :
    (c : Option Bytes) (base : ByteMap)
    → HoldsBase c base
    → Sorted base
    → load_base c ≡ ok (base, 0)
unfolding load_base
load_base-HoldsBase none base h s = ap (λ b. ok (b, 0)) (sym h)
load_base-HoldsBase (some file) base h s =
    ap load_checkpoint h.0 ∙ load_checkpoint-encode_checkpoint base h.1 s

replay_file-created :
    (w : Option Bytes) (m : ByteMap) → replay_file w 0 m ≡ replay_wal (created w) 0 m
unfolding replay_file replay_wal replay_loop
replay_file-created none m = refl
replay_file-created (some file) m = refl

-- What `open` finds: the log over the base, whatever bytes that end the replay stand behind it.
pub open_store-log :
    (d : Disk) (base : ByteMap) (log : List WriteBatch) (tail : Bytes)
    → Sorted base
    → HoldsBase d.checkpoint base
    → created d.wal ≡ encode_log log ++ tail
    → All Fits log
    → Stops tail
    → open_store d
      ≡ ok (record {
        disk = record d { wal = some (created d.wal) };
        map = apply_log base log;
        wal_bytes = length (created d.wal);
        auto_compact_threshold = default_threshold;
      })
unfolding open_store
open_store-log d base log tail s h w f t =
    let replayed : replay_file d.wal 0 base ≡ ok (apply_log base log) =
      replay_file-created d.wal base
      ∙ ap (λ file. replay_wal file 0 base) w
      ∙ replay_wal-log log tail base f t in
    let all : length (created d.wal) - 0 ≡ length (created d.wal) = omega arith in
    rw (load_base-HoldsBase d.checkpoint base h s, replayed, all)

-- Opening the files of a backed store succeeds and gives a backed store with the same map.
pub open_store-Backed :
    (s : WalStorage)
    → Backed s
    → (t : WalStorage) × (open_store s.disk ≡ ok t) × (t.map ≡ s.map) × Backed t
open_store-Backed s b = (
  record {
    disk = record s.disk { wal = some (created s.disk.wal) };
    map = apply_log b.base b.log;
    wal_bytes = length (created s.disk.wal);
    auto_compact_threshold = default_threshold;
  },
  open_store-log s.disk b.base b.log [] b.sorted b.holds
      (b.written ∙ sym (append-nil (encode_log b.log))) b.fits Stops-nil,
  sym b.result,
  record {
    base = b.base;
    log = b.log;
    sorted = b.sorted;
    holds = b.holds;
    written = b.written;
    fits = b.fits;
    result = refl;
  },
)

pub append_record-Backed :
    (s : WalStorage) (ops : WriteBatch) → Backed s → Fits ops → Backed (append_record s ops)
unfolding append_record
append_record-Backed s ops b f = record {
  base = b.base;
  log = b.log ++ ops ∷ [];
  sorted = b.sorted;
  holds = b.holds;
  written = ap (λ w. w ++ encode_commit_record ops) b.written ∙ sym (encode_log-append b.log ops);
  fits = All-append b.log ops b.fits f;
  result = ap (λ m. apply_ops m ops) b.result ∙ sym (apply_log-append b.base b.log ops);
}

pub compact-Backed : (s : WalStorage) → Backed s → MapFits s.map → Backed (compact s)
unfolding compact encode_log apply_log
compact-Backed s b f = record {
  base = s.map;
  log = [];
  sorted = map-Sorted b;
  holds = (refl, f);
  written = refl;
  fits = tt;
  result = refl;
}

map-append_record :
    (s : WalStorage) (ops : WriteBatch) → (append_record s ops).map ≡ apply_ops s.map ops
unfolding append_record
map-append_record s ops = refl

-- A commit of a batch that fits to a backed store leaves a backed store, if the map that it
-- leaves fits a checkpoint; so it does where it compacts by itself.
pub commit-Backed :
    (s : WalStorage) (ops : WriteBatch)
    → Backed s
    → Fits ops
    → MapFits (apply_ops s.map ops)
    → Backed (commit s ops)
unfolding commit
commit-Backed s [] b f m = b
commit-Backed s (op ∷ ops) b f m =
    let s' = append_record s (op ∷ ops) in
    let b' = append_record-Backed s (op ∷ ops) b f in
    elim (Bool-cases (is_full s')) [
      | inl h ↦ rw h (compact-Backed s' b' (rw (map-append_record s (op ∷ ops)) m))
      | inr h ↦ rw h b'
    ]

-- A commit leaves in memory the batch's effect on the map, also where it compacts.
pub map-commit : (s : WalStorage) (ops : WriteBatch) → (commit s ops).map ≡ apply_ops s.map ops
unfolding commit append_record compact apply_ops
map-commit s [] = refl
map-commit s (op ∷ ops) = ground arith

-- A new directory opens as the empty store.
pub open_store-empty : (t : WalStorage) × (open_store empty_disk ≡ ok t) × (t.map ≡ []) × Backed t
open_store-empty =
    open_store-Backed
      (record { disk = empty_disk; map = []; wal_bytes = 0; auto_compact_threshold = 0 })
      (unfold encode_log apply_log in
        record {
          base = [];
          log = [];
          sorted = tt;
          holds = refl;
          written = refl;
          fits = tt;
          result = refl;
        })
