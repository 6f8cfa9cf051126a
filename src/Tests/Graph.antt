-- ===== src/Tests/Graph.antt =====
-- The namespace of crates/alefs-namespace/src over the storage in memory.
use alefsdb.Prelude.{err}
use alefsdb.Prelude.OrdMap.{remove}
use alefsdb.Types.Codec.Decode.{decode, decode_value, read_u8, decode_tag, read_int}
use alefsdb.Bytes.Reader.{take_le, take_slice}
use alefsdb.Namespace.Errors.{not_found}
use alefsdb.Namespace.Resolve.{node_type_name, decode_node}
use alefsdb.Namespace.Ops.{delete_ops, require_empty}
use alefsdb.Namespace.Database.{delete as delete_path}
use alefsdb.Namespace.Database.Deleted.{get_entry-delete}
use alefsdb.Namespace.Database.Written.{get_entry-set}
use alefsdb.Namespace.Keys.Apart.{IsU64}
use alefsdb.Types.Codec.Canonical.{IsCanonical}
use alefsdb.Prelude.{ℕ, ◌≡◌, arith, sym, ◌∙◌, refl, List, [], ◌∷◌, ok, some, none}
use alefsdb.Prelude.Order.{pos}
use alefsdb.Bytes.{Bytes, text}
use alefsdb.Types.Value.{scalar, int}
use alefsdb.Types.DbPath.{DbPath}
use alefsdb.Storage.Memory.{MemoryStorage, memory, new}
use alefsdb.Prelude.Order.{cmp_list, list_ord, nat_ord}
use alefsdb.Prelude.OrdMap.{insert, get, Sorted}
use alefsdb.Bytes.{be_bytes, le_bytes, from_be, from_le}
use alefsdb.Types.Value.{typename}
use alefsdb.Types.DbPath.{parent, drop_last, last_segment, is_root, as_str}
use alefsdb.Types.DbPath.Split.{join_with}
use alefsdb.Types.Codec.Encode.{encode, encode_value, encode_scalar}
use alefsdb.Storage.Batch.{apply_ops, apply_op}
use alefsdb.Storage.Memory.{memory_get, memory_commit, memory_scan}
use alefsdb.Namespace.Keys.{
  node_key, child_key, meta_next_id, encode_dir_node, encode_value_node, encode_id, type_index_key,
  decode_id, parse_node,
}
use alefsdb.Namespace.Resolve.{walk, load_node, resolve_with, next_id_with, as_parent_missing}
use alefsdb.Namespace.Ops.{mkdir_ops, set_ops, place_ops, parent_dir, require_dir, new_node}
use alefsdb.Namespace.Database.{
  get_entry, value_entry, ensure_root, mkdir, set, exists, is_found, resolve,
}
use alefsdb.Namespace.Overlay.{
  TxnOp, mkdir_op, set_op, apply_txn, Overlay, commit_batch, into_batch, ov_get, ov_scan,
}
use alefsdb.Namespace.Overlay.Commit.{into_batch-shows}
use alefsdb.Namespace.Overlay.Direct.{run_each, run_one, apply_txn-run_each}
use mathlib.Core.List.{Memᴰ}
use alefsdb.Types.DbPath.{IsPath, is_dots, parse, parse_trimmed, parse_segments, check_segment}
use alefsdb.Types.DbPath.Split.{contains, trim_end, split}
use alefsdb.Storage.Batch.Scan.{scan_prefix, range_from, while_prefixed}
use alefsdb.Namespace.Database.{index_paths, sort_by, insert_by, entry_of}
use alefsdb.Bytes.{starts_with, valid_utf8}
use alefsdb.Types.Codec.Decode.{i64_of_bits}
use alefsdb.Types.Codec.Encode.{i64_bits}
use alefsdb.Namespace.Keys.{type_index_prefix}
use alefsdb.Namespace.Database.{paths_with_type}
use alefsdb.Namespace.Database.Indexed.{paths_with_type-set}
use alefsdb.Query.Ast.{Expr, QueryHit, pred, type_name}
use alefsdb.Query.Predicates.{eval_pred, eval_type_name, type_matches}
use alefsdb.Query.Eval.{
  eval_expr, required_concrete_type, hits, hit_type, get_entries, indexed_candidates,
}
use alefsdb.Query.Execute.{evaluate, candidates_for, candidates_of}
use alefsdb.Query.Execute.Indexed.{evaluate-set}
use alefsdb.Prelude.{true}
use alefsdb.Bytes.{same}

abbrev empty_graph : MemoryStorage
empty_graph = ensure_root memory new

abbrev dir_a : DbPath
dir_a = record { segments = text "a" ∷ [] }

abbrev leaf_x : DbPath
leaf_x = record { segments = text "a" ∷ text "x" ∷ [] }

abbrev ops : List TxnOp
ops = mkdir_op dir_a ∷ set_op leaf_x (scalar (int (pos 1))) ∷ []

abbrev grown : MemoryStorage
grown = record {
  map =
      (child_key 1 (text "a"), encode_id 2)
      ∷ (child_key 2 (text "x"), encode_id 3)
      ∷ (type_index_key (text "directory") 1, text "/")
      ∷ (type_index_key (text "directory") 2, text "/a")
      ∷ (type_index_key (text "int") 3, text "/a/x")
      ∷ (meta_next_id, encode_id 4)
      ∷ (node_key 1, encode_dir_node)
      ∷ (node_key 2, encode_dir_node)
      ∷ (node_key 3, encode_value_node (encode (scalar (int (pos 1)))))
      ∷ [];
}

empty_graph-Sorted : Sorted empty_graph.map
unfolding ensure_root node_key meta_next_id encode_dir_node encode_id type_index_key text be_bytes
    cmp_list memory_get memory_commit apply_ops apply_op insert get
empty_graph-Sorted = (((refl, (refl, tt)), ((refl, tt), (tt, tt))))

run : run_each memory empty_graph ops ≡ ok grown
unfolding ensure_root node_key meta_next_id encode_dir_node encode_value_node encode_id
    type_index_key text be_bytes cmp_list memory_get memory_commit apply_ops apply_op insert get
    child_key encode encode_value encode_scalar le_bytes run_each run_one mkdir set exists is_found
    resolve resolve_with walk load_node mkdir_ops set_ops place_ops parent_dir require_dir
    next_id_with new_node parse_node decode_id from_be from_le as_parent_missing parent drop_last
    last_segment is_root as_str join_with typename
run = refl

apply_txn-run_each_example :
    (t : MemoryStorage) × (apply_txn memory empty_graph ops ≡ ok t) × (t.map ≡ grown.map)
apply_txn-run_each_example = apply_txn-run_each memory empty_graph grown ops empty_graph-Sorted run

-- A transaction that has removed the root's row in the type index and written another key.
abbrev overlay : Overlay memory
overlay = record {
  store = empty_graph;
  pending =
      (child_key 1 (text "a"), some (encode_id 2))
      ∷ (type_index_key (text "directory") 1, none)
      ∷ [];
}

overlay-Sorted : Sorted overlay.pending
unfolding child_key encode_id type_index_key text be_bytes cmp_list
overlay-Sorted = ((refl, tt), (tt, tt))

into_batch-shows_example :
    ((k : Bytes)
      → memory_get (commit_batch memory overlay.store (into_batch memory overlay)) k
        ≡ ov_get memory overlay k)
    × ((p : Bytes)
        → memory_scan (commit_batch memory overlay.store (into_batch memory overlay)) p
          ≡ ov_scan memory overlay p)
into_batch-shows_example = into_batch-shows memory overlay empty_graph-Sorted overlay-Sorted

-- A value at a path below the root.
abbrev leaf_n : DbPath
leaf_n = record { segments = text "n" ∷ [] }

abbrev with_n : MemoryStorage
with_n = record {
  map =
      (child_key 1 (text "n"), encode_id 2)
      ∷ (type_index_key (text "directory") 1, text "/")
      ∷ (type_index_key (text "int") 2, text "/n")
      ∷ (meta_next_id, encode_id 3)
      ∷ (node_key 1, encode_dir_node)
      ∷ (node_key 2, encode_value_node (encode (scalar (int (pos 7)))))
      ∷ [];
}

set_n : set memory empty_graph leaf_n (scalar (int (pos 7))) ≡ ok with_n
unfolding ensure_root node_key meta_next_id encode_dir_node encode_value_node encode_id
    type_index_key text be_bytes cmp_list memory_get memory_commit apply_ops apply_op insert get
    child_key encode encode_value encode_scalar le_bytes set resolve_with walk load_node set_ops
    place_ops parent_dir require_dir next_id_with new_node parse_node decode_id from_be from_le
    as_parent_missing parent drop_last last_segment is_root as_str join_with typename
set_n = refl

next_id_two : next_id_with (memory_get empty_graph) ≡ ok 2
unfolding next_id_with ensure_root node_key meta_next_id encode_dir_node encode_id type_index_key
    text be_bytes cmp_list memory_get memory_commit apply_ops apply_op insert get decode_id from_be
    from_le le_bytes
next_id_two = refl

counter-IsU64 : (id : ℕ) → next_id_with (memory_get empty_graph) ≡ ok id → IsU64 id
counter-IsU64 id h = let e : 2 ≡ id = cc (sym next_id_two ∙ h) in omega (arith, e)

get_entry-set_example :
    get_entry memory with_n leaf_n
    ≡ ok (record { path = leaf_n; kind = value_entry; value = some (scalar (int (pos 7))) })
get_entry-set_example =
    get_entry-set memory empty_graph with_n leaf_n (scalar (int (pos 7))) empty_graph-Sorted
      int-IsCanonical counter-IsU64 set_n
  where
    int-IsCanonical : IsCanonical (scalar (int (pos 7)))
    int-IsCanonical = omega arith

with_n-Sorted : Sorted with_n.map
unfolding node_key meta_next_id encode_dir_node encode_id type_index_key child_key text be_bytes
    le_bytes cmp_list
with_n-Sorted = (
  (refl, (refl, (refl, (refl, (refl, tt))))),
  (
    (refl, (refl, (refl, (refl, tt)))),
    ((refl, (refl, (refl, tt))), ((refl, (refl, tt)), ((refl, tt), (tt, tt)))),
  ),
)

-- The deleted path's id is not used again.
abbrev without_n : MemoryStorage
without_n = record {
  map =
      (type_index_key (text "directory") 1, text "/")
      ∷ (meta_next_id, encode_id 3)
      ∷ (node_key 1, encode_dir_node)
      ∷ [];
}

delete_n : delete_path memory with_n leaf_n ≡ ok without_n
unfolding ensure_root node_key meta_next_id encode_dir_node encode_value_node encode_id
    type_index_key text be_bytes cmp_list memory_get memory_commit apply_ops apply_op insert get
    child_key encode encode_value encode_scalar le_bytes set resolve_with walk load_node set_ops
    place_ops parent_dir require_dir next_id_with new_node parse_node decode_id from_be from_le
    as_parent_missing parent drop_last last_segment is_root as_str join_with typename delete_path
    delete_ops require_empty node_type_name decode_node decode decode_value remove read_u8
    decode_tag read_int take_le take_slice
delete_n = refl

get_entry-delete_example : get_entry memory without_n leaf_n ≡ err (not_found (as_str leaf_n))
get_entry-delete_example = get_entry-delete memory with_n without_n leaf_n with_n-Sorted delete_n

leaf_n-IsPath : IsPath leaf_n
unfolding text is_dots contains same
leaf_n-IsPath = (record { filled = cc; no_dots = refl; no_nul = refl; no_slash = refl }, tt)

typed_int : paths_with_type memory with_n (text "int") ≡ ok (leaf_n ∷ [])
unfolding paths_with_type type_index_prefix type_index_key text memory_scan scan_prefix range_from
    while_prefixed index_paths sort_by insert_by parse parse_trimmed parse_segments check_segment
    is_dots contains same starts_with valid_utf8 node_key meta_next_id encode_dir_node
    encode_value_node encode_id child_key be_bytes cmp_list trim_end split as_str join_with le_bytes
typed_int = refl

paths_with_type-set_example : Memᴰ leaf_n (leaf_n ∷ [])
unfolding typename text
paths_with_type-set_example =
    paths_with_type-set memory empty_graph with_n leaf_n (scalar (int (pos 7))) (leaf_n ∷ [])
      empty_graph-Sorted leaf_n-IsPath set_n typed_int

abbrev ints : Expr
ints = pred (type_name (text "int"))

ints-required : required_concrete_type ints ≡ some (text "int")
unfolding required_concrete_type same text
ints-required = refl

ints-holds : eval_expr ints leaf_n value_entry (some (scalar (int (pos 7)))) ≡ true
unfolding eval_expr eval_pred eval_type_name type_matches same text typename
ints-holds = refl

abbrev int_hits : List QueryHit
int_hits = record { path = leaf_n; type_name = text "int" } ∷ []

ints-evaluated : evaluate memory with_n 2 ints ≡ ok int_hits
unfolding evaluate candidates_for candidates_of indexed_candidates get_entries hits paths_with_type
    type_index_prefix type_index_key text memory_scan memory_get scan_prefix range_from
    while_prefixed index_paths sort_by insert_by parse parse_trimmed parse_segments check_segment
    is_dots contains same starts_with valid_utf8 node_key meta_next_id encode_dir_node
    encode_value_node encode_id child_key be_bytes le_bytes cmp_list trim_end split as_str join_with
    get_entry resolve resolve_with is_root load_node get parse_node entry_of decode_node decode
    decode_value read_u8 decode_tag read_int take_le take_slice from_le decode_id from_be walk
    i64_of_bits i64_bits encode encode_value encode_scalar eval_expr eval_pred eval_type_name
    type_matches typename required_concrete_type hit_type
ints-evaluated = refl

leaf_value-IsCanonical : IsCanonical (scalar (int (pos 7)))
leaf_value-IsCanonical = omega arith

evaluate-set_example :
    Memᴰ (record { path = leaf_n; type_name = typename (scalar (int (pos 7))) }) int_hits
evaluate-set_example =
    evaluate-set memory empty_graph with_n leaf_n (scalar (int (pos 7))) 2 ints (text "int")
      int_hits empty_graph-Sorted leaf_n-IsPath leaf_value-IsCanonical counter-IsU64 set_n
      ints-required ints-holds ints-evaluated
