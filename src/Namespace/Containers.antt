-- ===== src/Namespace/Containers.antt =====
-- The updates inside a value: `hash_set`, `list_push`, `set_add` and `tree_set`. `Database` and a
-- transaction read the value in their own ways and then do the same; an error of the read is
-- `Err(NotFound)` where the value is missing, which starts an empty container.
use alefsdb.Prelude.{Bool, false, ◌||◌, List, [], ◌∷◌, ◌++◌, Result, ok, err, if◌then◌else◌}
use alefsdb.Prelude.Order.{nat_ord, list_ord}
use alefsdb.Prelude.OrdMap.{insert}
use alefsdb.Bytes.{Bytes, text, same}
use alefsdb.Types.Value.{
  Scalar, Value, hash, set, list, tree, Items, Fields, Entries, no_fields, no_items, no_entries,
  items, of_items, fields, of_fields, entries, of_entries,
}
use alefsdb.Types.Value.Order.{scalar_ord}
use alefsdb.Types.DbPath.{DbPath, as_str}
use alefsdb.Types.Codec.Encode.{encode_payload}
use alefsdb.Namespace.Errors.{NsError, not_found, type_mismatch}

-- The `match` of each update: the container, an empty one where nothing is, or the error.
unfoldable pub as_hash : DbPath → Result NsError Value → Result NsError Fields
as_hash p (ok (hash m)) = ok m
as_hash p (ok v) = err (type_mismatch (as_str p) (text "hash"))
as_hash p (err (not_found q)) = ok no_fields
as_hash p (err e) = err e

unfoldable pub as_list : DbPath → Result NsError Value → Result NsError Items
as_list p (ok (list m)) = ok m
as_list p (ok v) = err (type_mismatch (as_str p) (text "list"))
as_list p (err (not_found q)) = ok no_items
as_list p (err e) = err e

unfoldable pub as_set : DbPath → Result NsError Value → Result NsError Items
as_set p (ok (set m)) = ok m
as_set p (ok v) = err (type_mismatch (as_str p) (text "set"))
as_set p (err (not_found q)) = ok no_items
as_set p (err e) = err e

unfoldable pub as_tree : DbPath → Result NsError Value → Result NsError Entries
as_tree p (ok (tree m)) = ok m
as_tree p (ok v) = err (type_mismatch (as_str p) (text "tree"))
as_tree p (err (not_found q)) = ok no_entries
as_tree p (err e) = err e

unfoldable pub with_field : Bytes → Value → Fields → Value
with_field k v m = hash (of_fields (insert k v (fields m)))

unfoldable pub with_item : Value → Items → Value
with_item v m = list (of_items (items m ++ v ∷ []))

-- `members.iter().any(|m| encode_payload(m) == payload)`
unfoldable pub has_payload : Bytes → List Value → Bool
has_payload payload [] = false
has_payload payload (m ∷ members) = same (encode_payload m) payload || has_payload payload members

unfoldable pub with_member : Value → Items → Value
with_member v m =
    if has_payload (encode_payload v) (items m) then set m else set (of_items (items m ++ v ∷ []))

unfoldable pub with_entry : Scalar → Value → Entries → Value
with_entry k v m = tree (of_entries (insert k v (entries m)))
