-- ===== src/Storage/Memory.antt =====
-- `MemoryStorage` (crates/alefs-storage/src/memory.rs), and the `Storage` trait as an interface.
use alefsdb.Prelude.{◌≡◌, refl, Option, []}
use alefsdb.Prelude.Order.{nat_ord, list_ord}
use alefsdb.Prelude.OrdMap.{get}
use alefsdb.Bytes.{Bytes}
use alefsdb.Storage.Batch.{ByteMap, WriteBatch, apply_ops}
use alefsdb.Storage.Batch.Scan.{scan_prefix}

-- The trait `Storage`, over what an implementation keeps. A store shows a map; its reads are the
-- map's, and a commit is the batch's effect on it. The implementations' reads always return `Ok`,
-- and so do their commits where the file system does not fail.
pub record Storage : Type 1 where
  pub Store : Type 0
  pub view : Store → ByteMap
  pub get_value : Store → Bytes → Option Bytes
  pub scan : Store → Bytes → ByteMap
  pub commit : Store → WriteBatch → Store
  pub get-view : (s : Store) (k : Bytes) → get_value s k ≡ get k (view s)
  pub scan-view : (s : Store) (p : Bytes) → scan s p ≡ scan_prefix p (view s)
  pub view-commit : (s : Store) (b : WriteBatch) → view (commit s b) ≡ apply_ops (view s) b

pub record MemoryStorage : Type 0 where
  pub map : ByteMap

abbrev pub new : MemoryStorage
new = record { map = [] }

unfoldable pub memory_get : MemoryStorage → Bytes → Option Bytes
memory_get s key = get key s.map

unfoldable pub memory_commit : MemoryStorage → WriteBatch → MemoryStorage
memory_commit s batch = record { map = apply_ops s.map batch }

unfoldable pub memory_scan : MemoryStorage → Bytes → ByteMap
memory_scan s prefix = scan_prefix prefix s.map

pub memory_get-view : (s : MemoryStorage) (k : Bytes) → memory_get s k ≡ get k s.map
unfolding memory_get
memory_get-view s k = refl

pub memory_scan-view : (s : MemoryStorage) (p : Bytes) → memory_scan s p ≡ scan_prefix p s.map
unfolding memory_scan
memory_scan-view s p = refl

pub memory_commit-view :
    (s : MemoryStorage) (b : WriteBatch) → (memory_commit s b).map ≡ apply_ops s.map b
unfolding memory_commit
memory_commit-view s b = refl

abbrev pub memory : Storage
memory = record {
  Store = MemoryStorage;
  view = λ s. s.map;
  get_value = memory_get;
  scan = memory_scan;
  commit = memory_commit;
  get-view = memory_get-view;
  scan-view = memory_scan-view;
  view-commit = memory_commit-view;
}
