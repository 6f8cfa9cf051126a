-- ===== src/Namespace/Resolve.antt =====
-- `resolve`: from a path to its node, by the children's keys. `Database` reads the store and a
-- transaction its overlay, so what a key holds is a parameter.
use alefsdb.Prelude.{
  ℕ, Option, none, some, List, [], ◌∷◌, Result, ok, err, ◌>>=◌, ok_or, map_err, if◌then◌else◌,
}
use alefsdb.Bytes.{Bytes, text}
use alefsdb.Types.Value.{Value, typename}
use alefsdb.Types.DbPath.{DbPath, is_root, as_str}
use alefsdb.Types.Codec.Decode.{decode}
use alefsdb.Namespace.Keys.{
  root_id, meta_next_id, node_key, child_key, decode_id, NodeRecord, dir, value, parse_node,
}
use alefsdb.Namespace.Errors.{
  NsError, codec, not_found, parent_missing, invalid, missing_next_id, bad_next_id, bad_child_id,
  bad_node,
}

abbrev pub Lookup : Type 0
Lookup = Bytes → Option Bytes

-- The loop over the segments, from node `id` on.
unfoldable pub walk : Lookup → DbPath → ℕ → List Bytes → Result NsError ℕ
walk look p id [] = ok id
walk look p id (seg ∷ rest) = elim (look (child_key id seg)) [
  | none ↦ err (not_found (as_str p))
  | some raw ↦ ok_or (invalid bad_child_id) (decode_id raw) >>= λ next. walk look p next rest
]

-- The record of a node; `missing` is the error where there is none.
unfoldable pub load_node : Lookup → NsError → ℕ → Result NsError NodeRecord
load_node look missing id = do
  bytes ← ok_or missing (look (node_key id))
  map_err (λ e. invalid (bad_node e)) (parse_node bytes)

unfoldable pub resolve_with : Lookup → DbPath → Result NsError (ℕ × NodeRecord)
resolve_with look p =
    if is_root p
    then (do rec ← load_node look (not_found (text "/")) root_id; ok (root_id, rec))
    else do
      id ← walk look p root_id p.segments
      rec ← load_node look (not_found (as_str p)) id
      ok (id, rec)

-- The `map_err` of the parent's resolution.
unfoldable pub as_parent_missing : DbPath → NsError → NsError
as_parent_missing parent (not_found p) = parent_missing (as_str parent)
as_parent_missing parent other = other

unfoldable pub next_id_with : Lookup → Result NsError ℕ
next_id_with look = do
  raw ← ok_or (invalid missing_next_id) (look meta_next_id)
  ok_or (invalid bad_next_id) (decode_id raw)

-- `decode(enc)?`
unfoldable pub decode_node : Bytes → Result NsError Value
decode_node enc = map_err codec (decode enc)

unfoldable pub node_type_name : NodeRecord → Result NsError Bytes
node_type_name dir = ok (text "directory")
node_type_name (value enc) = do v ← decode_node enc; ok (typename v)
