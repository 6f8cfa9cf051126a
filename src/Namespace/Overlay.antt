-- ===== src/Namespace/Overlay.antt =====
-- `Overlay` and `apply_txn` (crates/alefs-namespace/src/txn.rs): the writes of a transaction over a
-- store that is not changed before the one commit.
pub mod Pending
pub mod Commit
pub mod Steps
pub mod Direct
use alefsdb.Prelude.{
  ℕ, Bool, true, false, Option, none, some, List, [], ◌∷◌, Result, ok, err, ◌>>=◌, ◌>>◌,
  if◌then◌else◌,
}
use alefsdb.Prelude.Order.{nat_ord, list_ord}
use alefsdb.Prelude.OrdMap.{OrdMap, get, insert, remove}
use alefsdb.Bytes.{Bytes, starts_with}
use alefsdb.Types.Value.{Scalar, Value}
use alefsdb.Types.DbPath.{DbPath, is_root, as_str}
use alefsdb.Storage.Batch.{BatchOp, put, delete, WriteBatch, ByteMap}
use alefsdb.Storage.Memory.{Storage}
use alefsdb.Namespace.Keys.{NodeRecord, dir, value}
use alefsdb.Namespace.Errors.{NsError, already_exists, is_directory}
use alefsdb.Namespace.Resolve.{resolve_with, decode_node}
use alefsdb.Namespace.Ops.{mkdir_ops, set_ops, delete_ops}
use alefsdb.Namespace.Containers.{
  as_hash, as_list, as_set, as_tree, with_field, with_item, with_member, with_entry,
}

pub data TxnOp : Type 0 where
  mkdir_op : DbPath → TxnOp
  set_op : DbPath → Value → TxnOp
  delete_op : DbPath → TxnOp
  hash_set_op : DbPath → Bytes → Value → TxnOp
  list_push_op : DbPath → Value → TxnOp
  set_add_op : DbPath → Value → TxnOp
  tree_set_op : DbPath → Scalar → Value → TxnOp

-- The pending writes; `none` stands for a deleted key.
abbrev pub Pending : Type 0
Pending = OrdMap Bytes (Option Bytes)

unfoldable pub pending_op : Pending → BatchOp → Pending
pending_op m (put k v) = insert k (some v) m
pending_op m (delete k) = insert k none m

unfoldable pub pending_ops : Pending → WriteBatch → Pending
pending_ops m [] = m
pending_ops m (op ∷ ops) = pending_ops (pending_op m op) ops

unfoldable pub write_of : Bytes → Option Bytes → BatchOp
write_of k (some v) = put k v
write_of k none = delete k

unfoldable pub batch_of : Pending → WriteBatch
batch_of [] = []
batch_of ((k, v) ∷ m) = write_of k v ∷ batch_of m

-- The first loop of `Overlay::scan_prefix`.
unfoldable pub collect : ByteMap → ByteMap → ByteMap
collect m [] = m
collect m ((k, v) ∷ rows) = collect (insert k v m) rows

unfoldable pub overlay_row : ByteMap → Bytes → Option Bytes → ByteMap
overlay_row m k (some v) = insert k v m
overlay_row m k none = remove k m

-- The second loop.
unfoldable pub overlay_rows : Bytes → ByteMap → Pending → ByteMap
overlay_rows p m [] = m
overlay_rows p m ((k, v) ∷ pending) =
    overlay_rows p (if starts_with p k then overlay_row m k v else m) pending

unfoldable pub is_ok {ℓ κ} : {E : Type ℓ} {A : Type κ} → Result E A → Bool
is_ok (ok a) = true
is_ok (err e) = false

-- The `match` of `get_value_ov`.
unfoldable pub value_of : DbPath → ℕ × NodeRecord → Result NsError Value
value_of p (id, dir) = err (is_directory (as_str p))
value_of p (id, value enc) = decode_node enc

-- What a deleted key shows is none; a key that is not pending shows the store's.
unfoldable pub shown : Option (Option Bytes) → Option Bytes → Option Bytes
shown (some v) below = v
shown none below = below

pub record Overlay (S : Storage) : Type 0 where
  pub store : S.Store
  pub pending : Pending

module _ (S : Storage) where
  unfoldable pub ov_get : Overlay S → Bytes → Option Bytes
  ov_get ov k = shown (get k ov.pending) (S.get_value ov.store k)

  unfoldable pub ov_scan : Overlay S → Bytes → ByteMap
  ov_scan ov p = overlay_rows p (collect [] (S.scan ov.store p)) ov.pending

  -- `put` and `delete`, in the order of the calls.
  unfoldable pub ov_write : Overlay S → WriteBatch → Overlay S
  ov_write ov ops = record ov { pending = pending_ops ov.pending ops }

  unfoldable pub into_batch : Overlay S → WriteBatch
  into_batch ov = batch_of ov.pending

  unfoldable pub resolve_ov : Overlay S → DbPath → Result NsError (ℕ × NodeRecord)
  resolve_ov ov p = resolve_with (ov_get ov) p

  unfoldable pub get_value_ov : Overlay S → DbPath → Result NsError Value
  get_value_ov ov p = do found ← resolve_ov ov p; value_of p found

  unfoldable pub mkdir_ov : Overlay S → DbPath → Result NsError (Overlay S)
  mkdir_ov ov p =
      if is_root p
      then ok ov
      else if is_ok (resolve_ov ov p)
      then err (already_exists (as_str p))
      else (do ops ← mkdir_ops (ov_get ov) p; ok (ov_write ov ops))

  unfoldable pub set_ov : Overlay S → DbPath → Value → Result NsError (Overlay S)
  set_ov ov p v = do ops ← set_ops (ov_get ov) p v; ok (ov_write ov ops)

  unfoldable pub delete_ov : Overlay S → DbPath → Result NsError (Overlay S)
  delete_ov ov p = do ops ← delete_ops (ov_get ov) (ov_scan ov) p; ok (ov_write ov ops)

  unfoldable pub apply_one : Overlay S → TxnOp → Result NsError (Overlay S)
  apply_one ov (mkdir_op p) = mkdir_ov ov p
  apply_one ov (set_op p v) = set_ov ov p v
  apply_one ov (delete_op p) = delete_ov ov p
  apply_one ov (hash_set_op p k v) = do
    m ← as_hash p (get_value_ov ov p)
    set_ov ov p (with_field k v m)
  apply_one ov (list_push_op p v) = do
    m ← as_list p (get_value_ov ov p)
    set_ov ov p (with_item v m)
  apply_one ov (set_add_op p v) = do m ← as_set p (get_value_ov ov p); set_ov ov p (with_member v m)
  apply_one ov (tree_set_op p k v) = do
    m ← as_tree p (get_value_ov ov p)
    set_ov ov p (with_entry k v m)

  unfoldable pub apply_each : Overlay S → List TxnOp → Result NsError (Overlay S)
  apply_each ov [] = ok ov
  apply_each ov (op ∷ ops) = apply_one ov op >>= λ ov'. apply_each ov' ops

  -- A batch without writes is not committed.
  unfoldable pub commit_batch : S.Store → WriteBatch → S.Store
  commit_batch s [] = s
  commit_batch s (op ∷ ops) = S.commit s (op ∷ ops)

  unfoldable pub apply_txn : S.Store → List TxnOp → Result NsError S.Store
  apply_txn s [] = ok s
  apply_txn s (op ∷ ops) = do
    ov ← apply_each (record { store = s; pending = [] }) (op ∷ ops)
    ok (commit_batch s (into_batch ov))
