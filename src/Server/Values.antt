-- ===== src/Server/Values.antt =====
-- `parse_value`, `format_value` and the operations of a batch (crates/alefs-server/src/handle.rs).
use alefsdb.Prelude.{
  ℕ, true, false, Option, none, some, List, [], ◌∷◌, ◌++◌, Result, ok, err, ◌>>=◌, map_err,
  if◌then◌else◌, length,
}
use alefsdb.Prelude.Order.{ℤ}
use alefsdb.Bytes.{Bytes, text, same}
use alefsdb.Bytes.Decimal.{parse_i64, show_nat, show_i64}
use alefsdb.Types.Value.{
  Scalar, null, bool, int, float, string, bytes, Value, scalar, hash, set, list, tree, no_items,
  no_fields, no_entries, items, fields, entries,
}
use alefsdb.Types.DbPath.{DbPath, parse}
use alefsdb.Query.Parse.Tokens.{ParseF64}
use alefsdb.Namespace.Json.Print.{ShowF64, bool_text}
use alefsdb.Namespace.Overlay.{
  TxnOp, mkdir_op, set_op, delete_op, hash_set_op, list_push_op, set_add_op, tree_set_op,
}
use alefsdb.Server.Protocol.{
  Request, Requests, no_requests, request, Failure, bad_path, bad_bool, bad_int, bad_float,
  unknown_type, not_in_batch,
}
use alefsdb.Server.Protocol as protocol

unfoldable pub parse_path : Bytes → Result Failure DbPath
parse_path p = map_err (λ e. bad_path e) (parse p)

-- `raw.parse::<bool>()`
unfoldable pub parse_bool : Bytes → Result Failure Scalar
parse_bool raw =
    if same raw (text "true")
    then ok (bool true)
    else if same raw (text "false")
    then ok (bool false)
    else err (bad_bool raw)

unfoldable pub int_of : Bytes → Option ℤ → Result Failure Scalar
int_of raw none = err (bad_int raw)
int_of raw (some n) = ok (int n)

unfoldable pub float_of : Bytes → Option ℕ → Result Failure Scalar
float_of raw none = err (bad_float raw)
float_of raw (some f) = ok (float f)

-- The key of a `tset`: an `i64` where it parses as one.
unfoldable pub key_of : Bytes → Option ℤ → Scalar
key_of key (some n) = int n
key_of key none = string key

abbrev pub tree_key : Bytes → Scalar
tree_key key = key_of key (parse_i64 key)

abbrev as_value : Result Failure Scalar → Result Failure Value
as_value r = r >>= λ s. ok (scalar s)

unfoldable pub parse_value : ParseF64 → Bytes → Bytes → Result Failure Value
parse_value parse_f64 ty raw =
    if same ty (text "null")
    then ok (scalar null)
    else if same ty (text "bool")
    then as_value (parse_bool raw)
    else if same ty (text "int")
    then as_value (int_of raw (parse_i64 raw))
    else if same ty (text "float")
    then as_value (float_of raw (parse_f64 raw))
    else if same ty (text "string")
    then ok (scalar (string raw))
    else if same ty (text "bytes")
    then ok (scalar (bytes raw))
    else if same ty (text "hash")
    then ok (hash no_fields)
    else if same ty (text "list")
    then ok (list no_items)
    else if same ty (text "set")
    then ok (set no_items)
    else if same ty (text "tree")
    then ok (tree no_entries)
    else err (unknown_type ty)

-- `keys.join(",")`
unfoldable pub join_keys : List (Bytes × Value) → Bytes
join_keys [] = []
join_keys ((k, v) ∷ []) = k
join_keys ((k, v) ∷ (l, w) ∷ m) = k ++ b',' ∷ join_keys ((l, w) ∷ m)

unfoldable pub format_value : ShowF64 → Value → Bytes
format_value show_f64 (scalar null) = text "null"
format_value show_f64 (scalar (bool b)) = bool_text b
format_value show_f64 (scalar (int n)) = show_i64 n
format_value show_f64 (scalar (float f)) = show_f64 f
format_value show_f64 (scalar (string s)) = s
format_value show_f64 (scalar (bytes b)) = text "bytes[" ++ show_nat (length b) ++ text "]"
format_value show_f64 (hash m) = text "hash{" ++ join_keys (fields m) ++ text "}"
format_value show_f64 (set xs) = text "set(" ++ show_nat (length (items xs)) ++ text ")"
format_value show_f64 (list xs) = text "list[" ++ show_nat (length (items xs)) ++ text "]"
format_value show_f64 (tree m) = text "tree({" ++ show_nat (length (entries m)) ++ text "})"

-- An operation of a batch; the fields are parsed in the order of the source.
unfoldable pub request_to_txn : ParseF64 → Request → Result Failure TxnOp
request_to_txn pf (protocol.mkdir path) = do p ← parse_path path; ok (mkdir_op p)
request_to_txn pf (protocol.set path ty raw) = do
  p ← parse_path path
  v ← parse_value pf ty raw
  ok (set_op p v)
request_to_txn pf (protocol.rm path) = do p ← parse_path path; ok (delete_op p)
request_to_txn pf (protocol.hset path key ty raw) = do
  p ← parse_path path
  v ← parse_value pf ty raw
  ok (hash_set_op p key v)
request_to_txn pf (protocol.lpush path ty raw) = do
  p ← parse_path path
  v ← parse_value pf ty raw
  ok (list_push_op p v)
request_to_txn pf (protocol.sadd path ty raw) = do
  p ← parse_path path
  v ← parse_value pf ty raw
  ok (set_add_op p v)
request_to_txn pf (protocol.tset path key ty raw) = do
  p ← parse_path path
  v ← parse_value pf ty raw
  ok (tree_set_op p (tree_key key) v)
request_to_txn pf other = err (not_in_batch other)

-- The loop of `apply_batch`.
unfoldable pub requests_to_txn : ParseF64 → Requests → Result Failure (List TxnOp)
requests_to_txn pf no_requests = ok []
requests_to_txn pf (request r rs) = do
  op ← request_to_txn pf r
  ops ← requests_to_txn pf rs
  ok (op ∷ ops)
