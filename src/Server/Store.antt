-- ===== src/Server/Store.antt =====
-- The store of the server as an interface, and `WalStorage` as what fills it.
use alefsdb.Prelude.{ℕ, ◌≡◌, refl, length}
use alefsdb.Prelude.Order.{nat_ord, list_ord}
use alefsdb.Prelude.OrdMap.{get}
use alefsdb.Bytes.{Bytes}
use alefsdb.Storage.Batch.Scan.{scan_prefix}
use alefsdb.Storage.Memory.{Storage}
use alefsdb.Storage.Wal.Store.{WalStorage, commit, get_value, scan, compact}
use alefsdb.Storage.Wal.Store.Backed.{map-commit}

-- A store that can be compacted, which leaves its map as it is, and that counts its keys.
pub record Compacting : Type 1 where
  pub storage : Storage
  pub compacted : storage.Store → storage.Store
  pub keys : storage.Store → ℕ
  pub view-compacted : (s : storage.Store) → storage.view (compacted s) ≡ storage.view s
  pub keys-view : (s : storage.Store) → keys s ≡ length (storage.view s)

pub wal_get-view : (s : WalStorage) (k : Bytes) → get_value s k ≡ get k s.map
unfolding get_value
wal_get-view s k = refl

pub wal_scan-view : (s : WalStorage) (p : Bytes) → scan s p ≡ scan_prefix p s.map
unfolding scan
wal_scan-view s p = refl

abbrev pub wal : Storage
wal = record {
  Store = WalStorage;
  view = λ s. s.map;
  get_value = get_value;
  scan = scan;
  commit = commit;
  get-view = wal_get-view;
  scan-view = wal_scan-view;
  view-commit = map-commit;
}

pub wal_view-compacted : (s : WalStorage) → (compact s).map ≡ s.map
unfolding compact
wal_view-compacted s = refl

abbrev pub wal_store : Compacting
wal_store = record {
  storage = wal;
  compacted = compact;
  keys = λ s. length s.map;
  view-compacted = wal_view-compacted;
  keys-view = λ s. refl;
}
