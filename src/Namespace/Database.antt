-- ===== src/Namespace/Database.antt =====
-- `Database` (crates/alefs-namespace/src/db.rs): the operations on paths over any store. An
-- operation that changes the store returns the store after its one commit; on an error the store
-- is the one before.
pub mod Written
pub mod Deleted
pub mod Indexed
use alefsdb.Prelude.{
  ℕ, ◌+◌, Bool, true, false, Option, none, some, List, [], ◌∷◌, Result, ok, err, ◌>>=◌, ok_or,
  map_err, if◌then◌else◌, drop, length,
}
use alefsdb.Prelude.Order.{nat_ord, list_ord}
use alefsdb.Prelude.OrdMap.{get}
use Prim.Native.Nat.Ordering.{gt}
use alefsdb.Bytes.{Bytes, text, valid_utf8, bytes_ord}
use alefsdb.Types.Value.{Scalar, Value, hash, fields}
use alefsdb.Types.DbPath.{DbPath, is_root, as_str, parse}
use alefsdb.Storage.Batch.{put, ByteMap}
use alefsdb.Storage.Memory.{Storage}
use alefsdb.Namespace.Keys.{
  root_id, meta_next_id, encode_dir_node, encode_id, type_index_key, node_key, child_prefix,
  decode_id, type_index_prefix, NodeRecord, dir, value,
}
use alefsdb.Namespace.Errors.{
  NsError, path, not_found, already_exists, is_directory, type_mismatch, invalid, bad_child_id,
  missing_child_node, idx_path_utf8, child_name_utf8,
}
use alefsdb.Namespace.Resolve.{resolve_with, load_node, decode_node}
use alefsdb.Namespace.Ops.{mkdir_ops, set_ops, delete_ops, require_dir}
use alefsdb.Namespace.Containers.{
  as_hash, as_list, as_set, as_tree, with_field, with_item, with_member, with_entry,
}

pub data EntryKind : Type 0 where
  directory value_entry : EntryKind

pub record Entry : Type 0 where
  pub path : DbPath
  pub kind : EntryKind
  pub value : Option Value

-- The `match` of `exists`.
unfoldable pub is_found : Result NsError (ℕ × NodeRecord) → Result NsError Bool
is_found (ok found) = ok true
is_found (err (not_found p)) = ok false
is_found (err e) = err e

unfoldable pub entry_of : DbPath → NodeRecord → Result NsError Entry
entry_of p dir = ok (record { path = p; kind = directory; value = none })
entry_of p (value enc) = do
  v ← decode_node enc
  ok (record { path = p; kind = value_entry; value = some v })

-- The value of an entry, which a directory has not.
unfoldable pub entry_value : DbPath → Entry → Result NsError Value
entry_value p e = ok_or (is_directory (as_str p)) e.value

unfoldable pub kind_of : NodeRecord → EntryKind
kind_of dir = directory
kind_of (value enc) = value_entry

-- A stable sort by a key, `sort_by`.
unfoldable pub insert_by {ℓ} : {A : Type ℓ} → (A → Bytes) → A → List A → List A
insert_by key a [] = a ∷ []
insert_by key a (b ∷ bs) = elim (bytes_ord.cmp (key a) (key b)) [
  | gt ↦ b ∷ insert_by key a bs
  | _ ↦ a ∷ b ∷ bs
]

unfoldable pub sort_by {ℓ} : {A : Type ℓ} → (A → Bytes) → List A → List A
sort_by key [] = []
sort_by key (a ∷ bs) = insert_by key a (sort_by key bs)

unfoldable pub index_paths : ByteMap → Result NsError (List DbPath)
index_paths [] = ok []
index_paths ((k, v) ∷ rows) =
    let rest = index_paths rows in
    if valid_utf8 v
    then (do p ← map_err path (parse v); out ← rest; ok (p ∷ out))
    else err (invalid idx_path_utf8)

module _ (S : Storage) where
  -- The start of `open`: the root's node and the counter are made where they are missing.
  unfoldable pub ensure_root : S.Store → S.Store
  ensure_root s = elim (S.get_value s (node_key root_id)) [
    | none ↦ S.commit s (
        put (node_key root_id) encode_dir_node
        ∷ put meta_next_id (encode_id (root_id + 1))
        ∷ put (type_index_key (text "directory") root_id) (text "/")
        ∷ [])
    | some node ↦ elim (S.get_value s meta_next_id) [
      | none ↦ S.commit s (put meta_next_id (encode_id (root_id + 1)) ∷ [])
      | some raw ↦ s
    ]
  ]

  unfoldable pub resolve : S.Store → DbPath → Result NsError (ℕ × NodeRecord)
  resolve s p = resolve_with (S.get_value s) p

  unfoldable pub exists : S.Store → DbPath → Result NsError Bool
  exists s p = is_found (resolve s p)

  unfoldable pub get_entry : S.Store → DbPath → Result NsError Entry
  get_entry s p = do (id, rec) ← resolve s p; entry_of p rec

  unfoldable pub mkdir : S.Store → DbPath → Result NsError S.Store
  mkdir s p = if is_root p then ok s else do
    there ← exists s p
    if there
        then err (already_exists (as_str p))
        else (do ops ← mkdir_ops (S.get_value s) p; ok (S.commit s ops))

  unfoldable pub set : S.Store → DbPath → Value → Result NsError S.Store
  set s p v = do ops ← set_ops (S.get_value s) p v; ok (S.commit s ops)

  unfoldable pub delete : S.Store → DbPath → Result NsError S.Store
  delete s p = do ops ← delete_ops (S.get_value s) (S.scan s) p; ok (S.commit s ops)

  unfoldable pub paths_with_type : S.Store → Bytes → Result NsError (List DbPath)
  paths_with_type s type_name = do
    out ← index_paths (S.scan s (type_index_prefix type_name))
    ok (sort_by as_str out)

  -- The loop of `list` over the children's rows.
  unfoldable pub list_rows : S.Store → Bytes → ByteMap → Result NsError (List (Bytes × EntryKind))
  list_rows s prefix [] = ok []
  list_rows s prefix ((k, v) ∷ rows) =
      let rest = list_rows s prefix rows in
      let name = drop (length prefix) k in
      if valid_utf8 name
      then (do
        child_id ← ok_or (invalid bad_child_id) (decode_id v)
        rec ← load_node (S.get_value s) (invalid missing_child_node) child_id
        out ← rest
        ok ((name, kind_of rec) ∷ out))
      else err (invalid child_name_utf8)

  unfoldable pub list : S.Store → DbPath → Result NsError (List (Bytes × EntryKind))
  list s p = do
    found ← resolve s p
    id ← require_dir p found
    out ← list_rows s (child_prefix id) (S.scan s (child_prefix id))
    ok (sort_by (λ row. row.0) out)

  -- The value that an update reads.
  unfoldable pub get_value_at : S.Store → DbPath → Result NsError Value
  get_value_at s p = do e ← get_entry s p; entry_value p e

  unfoldable pub hash_set : S.Store → DbPath → Bytes → Value → Result NsError S.Store
  hash_set s p k v = do m ← as_hash p (get_value_at s p); set s p (with_field k v m)

  -- The `match` of `hash_get`.
  unfoldable pub field_of : DbPath → Bytes → Value → Result NsError (Option Value)
  field_of p k (hash m) = ok (get k (fields m))
  field_of p k v = err (type_mismatch (as_str p) (text "hash"))

  unfoldable pub hash_get : S.Store → DbPath → Bytes → Result NsError (Option Value)
  hash_get s p k = do v ← get_value_at s p; field_of p k v

  unfoldable pub list_push : S.Store → DbPath → Value → Result NsError S.Store
  list_push s p v = do m ← as_list p (get_value_at s p); set s p (with_item v m)

  unfoldable pub set_add : S.Store → DbPath → Value → Result NsError S.Store
  set_add s p v = do m ← as_set p (get_value_at s p); set s p (with_member v m)

  unfoldable pub tree_set : S.Store → DbPath → Scalar → Value → Result NsError S.Store
  tree_set s p k v = do m ← as_tree p (get_value_at s p); set s p (with_entry k v m)
