-- ===== src/Server/Mutations.antt =====
-- The closures of `dispatch_with_stats` that change the database, and `apply_batch`
-- (crates/alefs-server/src/handle.rs).
use alefsdb.Prelude.{ℕ, ok, ◌++◌, length}
use alefsdb.Bytes.{Bytes, text}
use alefsdb.Bytes.Decimal.{show_nat}
use alefsdb.Types.DbPath.{DbPath, as_str}
use alefsdb.Namespace.Database as database
use alefsdb.Namespace.Port.{import_json}
use alefsdb.Namespace.Json.Print.{ShowF64}
use alefsdb.Namespace.Overlay.{apply_txn}
use alefsdb.Query.Parse.Tokens.{ParseF64}
use alefsdb.Server.Protocol.{Requests, Response, ok_response}
use alefsdb.Server.Values.{parse_path, parse_value, tree_key, requests_to_txn}
use alefsdb.Server.Store.{Compacting}
use alefsdb.Server.Action.{Action, pure, lift, method, update, ◌>>=◌, ◌>>◌}

-- What `format!("ok {}", p.as_str())` prints.
abbrev pub ok_path : DbPath → Response
ok_path p = ok_response (text "ok " ++ as_str p)

-- The parameters: `parse` and `format!` of `f64`, `trim`, the fuel of the walks, and the seconds
-- since the start.
pub record Env : Type 0 where
  pub parse_f64 : ParseF64
  pub show_f64 : ShowF64
  pub trim : Bytes → Bytes
  pub fuel : ℕ
  pub uptime_sec : ℕ

module _ (C : Compacting) (env : Env) where
  abbrev pub Handler : Type 0
  Handler = Action C.storage.Store Response

  unfoldable pub run_mkdir : Bytes → Handler
  run_mkdir path = do
    p ← lift (parse_path path)
    update (λ s. database.mkdir C.storage s p)
    pure (ok_path p)

  unfoldable pub run_set : Bytes → Bytes → Bytes → Handler
  run_set path ty raw = do
    p ← lift (parse_path path)
    v ← lift (parse_value env.parse_f64 ty raw)
    update (λ s. database.set C.storage s p v)
    pure (ok_path p)

  unfoldable pub run_rm : Bytes → Handler
  run_rm path = do
    p ← lift (parse_path path)
    update (λ s. database.delete C.storage s p)
    pure (ok_path p)

  unfoldable pub run_hset : Bytes → Bytes → Bytes → Bytes → Handler
  run_hset path key ty raw = do
    p ← lift (parse_path path)
    v ← lift (parse_value env.parse_f64 ty raw)
    update (λ s. database.hash_set C.storage s p key v)
    pure (ok_response (text "ok"))

  unfoldable pub run_lpush : Bytes → Bytes → Bytes → Handler
  run_lpush path ty raw = do
    p ← lift (parse_path path)
    v ← lift (parse_value env.parse_f64 ty raw)
    update (λ s. database.list_push C.storage s p v)
    pure (ok_response (text "ok"))

  unfoldable pub run_sadd : Bytes → Bytes → Bytes → Handler
  run_sadd path ty raw = do
    p ← lift (parse_path path)
    v ← lift (parse_value env.parse_f64 ty raw)
    update (λ s. database.set_add C.storage s p v)
    pure (ok_response (text "ok"))

  unfoldable pub run_tset : Bytes → Bytes → Bytes → Bytes → Handler
  run_tset path key ty raw = do
    p ← lift (parse_path path)
    v ← lift (parse_value env.parse_f64 ty raw)
    update (λ s. database.tree_set C.storage s p (tree_key key) v)
    pure (ok_response (text "ok"))

  unfoldable pub run_compact : Handler
  run_compact = do update (λ s. ok (C.compacted s)); pure (ok_response (text "ok compacted"))

  -- What was imported before an error stays.
  unfoldable pub run_import : Bytes → Handler
  run_import json = do
    method (λ s. import_json C.storage env.parse_f64 env.trim s json)
    pure (ok_response (text "ok imported"))

  unfoldable pub apply_batch : Requests → Handler
  apply_batch rs = do
    txn ← lift (requests_to_txn env.parse_f64 rs)
    update (λ s. apply_txn C.storage s txn)
    pure (ok_response (text "ok batch " ++ show_nat (length txn)))
