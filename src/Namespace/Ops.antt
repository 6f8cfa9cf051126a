-- ===== src/Namespace/Ops.antt =====
-- What `mkdir`, `set` and `delete` write. Each reads all that it needs before its first write, so
-- its writes are a list: `Database` commits them as a batch and a transaction puts them into its
-- overlay.
use alefsdb.Prelude.{
  ℕ, ◌+◌, Option, none, some, [], ◌∷◌, ◌++◌, Result, ok, err, ◌>>=◌, ◌>>◌, ok_or, map_err,
  if◌then◌else◌,
}
use alefsdb.Bytes.{Bytes, text, same}
use alefsdb.Types.Value.{Value, typename}
use alefsdb.Types.DbPath.{DbPath, is_root, as_str, parent, last_segment}
use alefsdb.Types.Codec.Encode.{encode}
use alefsdb.Storage.Batch.{put, delete, WriteBatch, ByteMap}
use alefsdb.Namespace.Keys.{
  meta_next_id, node_key, child_key, child_prefix, type_index_key, encode_id, decode_id,
  encode_dir_node, encode_value_node, NodeRecord, dir, value,
}
use alefsdb.Namespace.Errors.{
  NsError, not_directory, is_directory, invalid, no_parent, no_name, set_at_root, delete_root,
  directory_not_empty, bad_child_id, missing_node,
}
use alefsdb.Namespace.Resolve.{
  Lookup, resolve_with, load_node, next_id_with, as_parent_missing, decode_node, node_type_name,
}

-- `if !matches!(parent_rec, Dir)`
unfoldable pub require_dir : DbPath → ℕ × NodeRecord → Result NsError ℕ
require_dir p (id, dir) = ok id
require_dir p (id, value enc) = err (not_directory (as_str p))

-- The parent's node, which must be a directory.
unfoldable pub parent_dir : Lookup → DbPath → Result NsError ℕ
parent_dir look p = do
  found ← map_err (as_parent_missing p) (resolve_with look p)
  require_dir p found

-- A new node: the counter, the node, its name in the parent and its row in the type index.
unfoldable pub new_node : ℕ → ℕ → Bytes → Bytes → Bytes → DbPath → WriteBatch
new_node id parent_id name node type_name p =
    put meta_next_id (encode_id (id + 1))
    ∷ put (node_key id) node
    ∷ put (child_key parent_id name) (encode_id id)
    ∷ put (type_index_key type_name id) (as_str p)
    ∷ []

-- `mkdir` from the test that the path is free on.
unfoldable pub mkdir_ops : Lookup → DbPath → Result NsError WriteBatch
mkdir_ops look p = do
  up ← ok_or (invalid no_parent) (parent p)
  name ← ok_or (invalid no_name) (last_segment p.segments)
  parent_id ← parent_dir look up
  id ← next_id_with look
  ok (new_node id parent_id name encode_dir_node (text "directory") p)

-- The writes for a value in the place of a value.
unfoldable pub replace_ops : DbPath → Value → ℕ → NodeRecord → Result NsError WriteBatch
replace_ops p v id dir = err (is_directory (as_str p))
replace_ops p v id (value old_enc) = do
  old ← decode_node old_enc
  ok (
      (if same (typename old) (typename v)
        then []
        else delete (type_index_key (typename old) id) ∷ [])
      ++ (put (node_key id) (encode_value_node (encode v))
          ∷ put (type_index_key (typename v) id) (as_str p)
          ∷ []))

-- The two branches on the child's key.
unfoldable pub place_ops :
    Lookup → DbPath → Value → ℕ → Bytes → Option Bytes → Result NsError WriteBatch
place_ops look p v parent_id name none = do
  id ← next_id_with look
  ok (new_node id parent_id name (encode_value_node (encode v)) (typename v) p)
place_ops look p v parent_id name (some raw) = do
  id ← ok_or (invalid bad_child_id) (decode_id raw)
  rec ← load_node look (invalid missing_node) id
  replace_ops p v id rec

unfoldable pub set_ops : Lookup → DbPath → Value → Result NsError WriteBatch
set_ops look p v = if is_root p then err (invalid set_at_root) else do
  up ← ok_or (invalid no_parent) (parent p)
  name ← ok_or (invalid no_name) (last_segment p.segments)
  parent_id ← parent_dir look up
  place_ops look p v parent_id name (look (child_key parent_id name))

-- A directory with children is refused; `rows` are the children's.
unfoldable pub require_empty : DbPath → NodeRecord → ByteMap → Result NsError (Unit {0})
require_empty p dir [] = ok tt
require_empty p dir (row ∷ rows) = err (invalid (directory_not_empty (as_str p)))
require_empty p (value enc) rows = ok tt

-- The two `unwrap`s are of a parent and a name that every path but the root has.
unfoldable pub delete_ops : Lookup → (Bytes → ByteMap) → DbPath → Result NsError WriteBatch
delete_ops look scan p = if is_root p then err (invalid delete_root) else do
  (id, rec) ← resolve_with look p
  require_empty p rec (scan (child_prefix id))
  up ← ok_or (invalid no_parent) (parent p)
  name ← ok_or (invalid no_name) (last_segment p.segments)
  (parent_id, parent_rec) ← resolve_with look up
  type_name ← node_type_name rec
  ok (
      delete (type_index_key type_name id)
      ∷ delete (child_key parent_id name)
      ∷ delete (node_key id)
      ∷ [])
