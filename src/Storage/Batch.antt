-- ===== src/Storage/Batch.antt =====
-- Write batches and their effect on the map (crates/alefs-storage/src/batch.rs, `apply_ops`).
pub mod Scan
pub mod Replay
use alefsdb.Prelude.{
  ℕ, ◌≡◌, refl, Bool, true, false, Option, some, none, List, [], ◌∷◌, ◌++◌, length,
}
use alefsdb.Prelude.Order.{nat_ord, list_ord}
use alefsdb.Prelude.OrdMap.{OrdMap, insert, remove}
use alefsdb.Bytes.{Bytes}

pub data BatchOp : Type 0 where
  put : Bytes → Bytes → BatchOp
  delete : Bytes → BatchOp

-- `WriteBatch { ops }`
abbrev pub WriteBatch : Type 0
WriteBatch = List BatchOp

abbrev pub ByteMap : Type 0
ByteMap = OrdMap Bytes Bytes

-- `batch.put(k, v)` and `batch.delete(k)` push at the end.
abbrev pub push : WriteBatch → BatchOp → WriteBatch
push batch op = batch ++ op ∷ []

unfoldable pub apply_op : ByteMap → BatchOp → ByteMap
apply_op m (put k v) = insert k v m
apply_op m (delete k) = remove k m

unfoldable pub apply_ops : ByteMap → WriteBatch → ByteMap
apply_ops m [] = m
apply_ops m (op ∷ ops) = apply_ops (apply_op m op) ops
