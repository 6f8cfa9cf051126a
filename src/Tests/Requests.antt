-- ===== src/Tests/Requests.antt =====
-- The server of crates/alefs-server over the store with a log, and queries of a whole store.
use mathlib.Core.List.{Memᴰ}
use mathlib.Core.List.Memᴰ.{head}
use alefsdb.Prelude.{
  ℕ, zero, suc, ◌+◌, ◌≡◌, refl, true, none, some, List, [], ◌∷◌, ◌++◌, ok, err, All, length, arith,
  Option,
}
use alefsdb.Prelude.Order.{pos, cmp_list, list_ord, nat_ord}
use alefsdb.Prelude.OrdMap.{get, insert, Sorted}
use alefsdb.Bytes.{Bytes, text, valid_utf8, starts_with, same, be_bytes, le_bytes, from_be, from_le}
use alefsdb.Types.Value.{scalar, int, typename}
use alefsdb.Types.DbPath.{
  DbPath, root, join, parse, as_str, is_root, is_dots, parse_trimmed, parse_segments, check_segment,
  parent, drop_last, last_segment,
}
use alefsdb.Types.DbPath.Split.{contains, trim_end, split, join_with}
use alefsdb.Types.Codec.Decode.{decode, decode_value, read_u8, decode_tag, read_int, i64_of_bits}
use alefsdb.Bytes.Reader.{take_le, take_slice}
use alefsdb.Storage.Batch.Scan.{scan_prefix, range_from, while_prefixed}
use alefsdb.Namespace.Walk.{entry_at, rows_at, each_child}
use alefsdb.Namespace.Ops.{require_dir, mkdir_ops, set_ops, place_ops, parent_dir, new_node}
use alefsdb.Storage.Batch.{apply_ops, apply_op}
use alefsdb.Bytes.Decimal.{parse_i64, number, digits}
use alefsdb.Query.Predicates.{eval_pred, eval_type_name, type_matches}
use alefsdb.Query.Execute
use alefsdb.Types.Codec.Encode.{encode, encode_value, encode_scalar, i64_bits}
use alefsdb.Storage.Wal.Store.{WalStorage, empty_disk, get_value, scan, commit, append_record}
use alefsdb.Namespace.Keys.{
  node_key, child_key, meta_next_id, encode_dir_node, encode_value_node, encode_id, type_index_key,
  decode_id, parse_node, child_prefix,
}
use alefsdb.Namespace.Database.{
  Entry, value_entry, directory, get_entry, resolve, entry_of, exists, is_found,
  mkdir as mkdir_path, set as set_path, list, list_rows, kind_of, sort_by, insert_by,
}
use alefsdb.Namespace.Resolve.{
  resolve_with, walk, load_node, decode_node, next_id_with, as_parent_missing,
}
use alefsdb.Query.Ast.{Expr, QueryHit, pred, type_name}
use alefsdb.Query.Eval.{eval_expr, hit_type, hits, required_concrete_type}
use alefsdb.Query.Execute.{evaluate, candidates_for, candidates_of, all_entries, entries_of}
use alefsdb.Query.Execute.Sound.{IsHit, evaluate_sound}
use alefsdb.Query.Execute.Complete.{Below, at_top, under, evaluate_complete}
use alefsdb.Server.Protocol.{
  Request, Requests, no_requests, request, mkdir, set, ping, ok_response, batch,
}
use alefsdb.Server.Framing.{
  max_message, write_all, read_all, read_all-write_all, read_message, write_message,
  read_message_too_large, message_too_large,
}
use alefsdb.Server.Store.{wal, wal_store}
use alefsdb.Server.Mutations.{Env, run_mkdir, run_set}
use alefsdb.Server.Handle.{ServerStats, run, handle_all}
use alefsdb.Server.Values.{parse_path, parse_value, int_of}
use alefsdb.Server.Batches.{Succeed, apply_batch-Succeed}
use alefsdb.Server.Counters.{Counted, decoded, failures, handle_all-Counted}

abbrev env : Env
env = record { parse_f64 = λ s. none; show_f64 = λ f. []; trim = λ s. s; fuel = 4; uptime_sec = 9 }

-- The root and one value.
abbrev store : WalStorage
store = record {
  disk = empty_disk;
  map =
      (child_key 1 (text "n"), encode_id 2)
      ∷ (type_index_key (text "directory") 1, text "/")
      ∷ (type_index_key (text "int") 2, text "/n")
      ∷ (meta_next_id, encode_id 3)
      ∷ (node_key 1, encode_dir_node)
      ∷ (node_key 2, encode_value_node (encode (scalar (int (pos 3)))))
      ∷ [];
  wal_bytes = 0;
  auto_compact_threshold = 0;
}

abbrev expr : Expr
expr = pred (type_name (text "scalar"))

abbrev leaf : DbPath
leaf = record { segments = text "n" ∷ [] }

abbrev found : List QueryHit
found = record { path = leaf; type_name = text "int" } ∷ []

evaluated : evaluate wal store 2 expr ≡ ok found
unfolding evaluate candidates_for candidates_of required_concrete_type same text all_entries
    Execute.walk entry_at rows_at get_entry resolve resolve_with is_root load_node get_value get
    cmp_list node_key be_bytes encode_id child_key type_index_key meta_next_id encode_dir_node
    encode_value_node encode encode_value encode_scalar le_bytes parse_node entry_of decode_node
    decode decode_value read_u8 decode_tag read_int take_le take_slice from_le list list_rows
    child_prefix require_dir scan scan_prefix range_from while_prefixed decode_id from_be valid_utf8
    kind_of sort_by insert_by each_child join is_dots contains entries_of hits eval_expr eval_pred
    eval_type_name type_matches hit_type typename starts_with walk
evaluated = refl

evaluate_sound_example : All (IsHit wal store expr) found
evaluate_sound_example = evaluate_sound wal store 2 expr found evaluated

read_all-write_all_example :
    read_all 3 (write_all (text "{}" ∷ text "ping" ∷ [])) ≡ ok (text "{}" ∷ text "ping" ∷ [])
read_all-write_all_example =
    read_all-write_all (text "{}" ∷ text "ping" ∷ []) 3
      (unfold text in (omega arith, (omega arith, tt))) (omega arith)

abbrev leaf_entry : Entry
leaf_entry = record { path = leaf; kind = value_entry; value = some (scalar (int (pos 3))) }

leaf-get : get_entry wal store leaf ≡ ok leaf_entry
unfolding get_entry resolve resolve_with is_root load_node get_value get cmp_list node_key be_bytes
    encode_id child_key type_index_key meta_next_id encode_dir_node encode_value_node encode
    encode_value encode_scalar le_bytes parse_node entry_of decode_node decode decode_value read_u8
    decode_tag read_int take_le take_slice from_le decode_id from_be walk text i64_of_bits i64_bits
leaf-get = refl

root-get : get_entry wal store root ≡ ok (record { path = root; kind = directory; value = none })
unfolding get_entry resolve resolve_with is_root load_node get_value get cmp_list node_key be_bytes
    encode_id child_key type_index_key meta_next_id encode_dir_node parse_node entry_of text
    le_bytes
root-get = refl

root-rows : rows_at wal store root ≡ ok ((text "n", value_entry) ∷ [])
unfolding rows_at list list_rows resolve resolve_with is_root load_node get_value get cmp_list
    node_key be_bytes encode_id child_key type_index_key meta_next_id encode_dir_node
    encode_value_node encode encode_value encode_scalar le_bytes parse_node child_prefix require_dir
    scan scan_prefix range_from while_prefixed decode_id from_be valid_utf8 kind_of sort_by
    insert_by starts_with text from_le
root-rows = refl

leaf-join : join root (text "n") ≡ ok leaf
unfolding join is_dots contains same text
leaf-join = refl

leaf-Below : Below wal store root leaf
leaf-Below =
    under root leaf leaf ((text "n", value_entry) ∷ []) (text "n", value_entry)
      (record { path = root; kind = directory; value = none }, root-get, refl) root-rows (head refl)
      leaf-join (at_top leaf)

expr-no_type : required_concrete_type expr ≡ none
unfolding required_concrete_type same text
expr-no_type = refl

leaf-holds : eval_expr expr leaf value_entry (some (scalar (int (pos 3)))) ≡ true
unfolding eval_expr eval_pred eval_type_name type_matches same text typename
leaf-holds = refl

evaluate_complete_example :
    Memᴰ
      (record { path = leaf; type_name = hit_type value_entry (some (scalar (int (pos 3)))) })
      found
evaluate_complete_example =
    evaluate_complete wal store 2 expr found leaf leaf_entry expr-no_type evaluated leaf-Below
      leaf-get leaf-holds

-- A payload of a byte more than the limit.
zeros : ℕ → Bytes
zeros zero = []
zeros (suc n) = 0 ∷ zeros n

length-zeros : (n : ℕ) → length (zeros n) ≡ n
unfolding zeros
length-zeros zero = refl
length-zeros (suc n) = omega (arith, length-zeros n)

read_message_too_large_example :
    read_message (write_message (zeros (max_message + 1)) ++ []) ≡ err message_too_large
read_message_too_large_example =
    read_message_too_large (zeros (max_message + 1)) []
      (omega (arith, length-zeros (max_message + 1)))
      (omega (arith, length-zeros (max_message + 1)))

abbrev fresh : ServerStats
fresh = record { requests = 0; mutations = 0; queries = 0; errors = 0 }

abbrev messages : List (Option Request)
messages = some ping ∷ none ∷ some (mkdir (text "x")) ∷ []

handle_all-Counted_example :
    Counted wal_store env fresh
      (handle_all wal_store env store fresh messages).1
      (decoded messages)
      (failures wal_store env (handle_all wal_store env store fresh messages).2)
handle_all-Counted_example =
    handle_all-Counted wal_store env store fresh messages (omega arith) (omega arith)

-- A batch of a directory and a value in it.
abbrev requests : Requests
requests =
    request (mkdir (text "/a")) (request (set (text "/a/x") (text "int") (text "1")) no_requests)

abbrev after_mkdir : WalStorage
after_mkdir = (run wal_store env store fresh (mkdir (text "/a"))).0

abbrev after_set : WalStorage
after_set = (run wal_store env after_mkdir fresh (set (text "/a/x") (text "int") (text "1"))).0

store-Sorted : Sorted store.map
unfolding node_key meta_next_id encode_dir_node encode_id type_index_key text be_bytes cmp_list
    child_key le_bytes
store-Sorted = (
  (refl, (refl, (refl, (refl, (refl, tt))))),
  (
    (refl, (refl, (refl, (refl, tt)))),
    ((refl, (refl, (refl, tt))), ((refl, (refl, tt)), ((refl, tt), (tt, tt)))),
  ),
)

-- What both runs unfold.
mkdir-ran :
    run wal_store env store fresh (mkdir (text "/a"))
    ≡ (after_mkdir, ok (ok_response (text "ok /a")))
unfolding run run_mkdir parse_path parse parse_trimmed parse_segments check_segment trim_end split
    is_dots contains same text mkdir_path exists is_found resolve resolve_with is_root load_node
    walk get_value get cmp_list node_key be_bytes encode_id child_key type_index_key meta_next_id
    encode_dir_node le_bytes parse_node mkdir_ops parent_dir require_dir next_id_with
    as_parent_missing parent drop_last last_segment as_str join_with decode_id from_be from_le
mkdir-ran = refl

set-ran :
    run wal_store env after_mkdir fresh (set (text "/a/x") (text "int") (text "1"))
    ≡ (after_set, ok (ok_response (text "ok /a/x")))
unfolding run run_mkdir run_set parse_path parse parse_trimmed parse_segments check_segment trim_end
    split is_dots contains same text mkdir_path exists is_found resolve resolve_with is_root
    load_node walk get_value get cmp_list node_key be_bytes encode_id child_key type_index_key
    meta_next_id encode_dir_node le_bytes parse_node mkdir_ops parent_dir require_dir next_id_with
    as_parent_missing parent drop_last last_segment as_str join_with decode_id from_be from_le
    parse_value int_of parse_i64 number digits set_path set_ops place_ops new_node commit
    append_record apply_ops apply_op insert encode_value_node encode typename
set-ran = refl

requests-Succeed : Succeed wal_store env store fresh requests after_set
requests-Succeed = (
  refl,
  after_mkdir,
  ok_response (text "ok /a"),
  mkdir-ran,
  (refl, after_set, ok_response (text "ok /a/x"), set-ran, refl),
)

apply_batch-Succeed_example :
    (t : WalStorage) × (n : Bytes) × (run wal_store env store fresh (batch requests)
      ≡ (t, ok (ok_response (text "ok batch " ++ n))))
    × (t.map ≡ after_set.map)
apply_batch-Succeed_example =
    apply_batch-Succeed wal_store env store after_set fresh requests store-Sorted requests-Succeed
