-- ===== src/Namespace/Keys.antt =====
-- The layout of the store's keys (crates/alefs-namespace/src/keys.rs).
pub mod Apart
use alefsdb.Prelude.{
  ℕ, ◌+◌, ◌≡◌, Option, none, some, List, [], ◌∷◌, ◌++◌, length, Result, ok, err, ◌==◌,
  if◌then◌else◌,
}
use alefsdb.Bytes.{Bytes, text, be_bytes, from_be}

abbrev pub root_id : ℕ
root_id = 1

unfoldable pub meta_next_id : Bytes
meta_next_id = text "meta/next_id"

unfoldable pub node_key : ℕ → Bytes
node_key id = text "node/" ++ be_bytes 8 id

unfoldable pub child_prefix : ℕ → Bytes
child_prefix parent = text "child/" ++ (be_bytes 8 parent ++ b'/' ∷ [])

unfoldable pub child_key : ℕ → Bytes → Bytes
child_key parent name = text "child/" ++ (be_bytes 8 parent ++ b'/' ∷ name)

unfoldable pub encode_id : ℕ → Bytes
encode_id id = be_bytes 8 id

unfoldable pub decode_id : Bytes → Option ℕ
decode_id bytes = if length bytes == 8 then some (from_be bytes) else none

unfoldable pub encode_dir_node : Bytes
encode_dir_node = 0 ∷ []

unfoldable pub encode_value_node : Bytes → Bytes
encode_value_node encoded = 1 ∷ encoded

pub data NodeRecord : Type 0 where
  dir : NodeRecord
  value : Bytes → NodeRecord

pub data NodeError : Type 0 where
  empty_node : NodeError
  unknown_node_tag : ℕ → NodeError

unfoldable pub parse_node : Bytes → Result NodeError NodeRecord
parse_node [] = err empty_node
parse_node (t ∷ bytes) =
    if t == 0 then ok dir else if t == 1 then ok (value bytes) else err (unknown_node_tag t)

unfoldable pub type_index_prefix : Bytes → Bytes
type_index_prefix type_name = text "idx/t/" ++ (type_name ++ b'/' ∷ [])

unfoldable pub type_index_key : Bytes → ℕ → Bytes
type_index_key type_name id = text "idx/t/" ++ (type_name ++ b'/' ∷ be_bytes 8 id)
