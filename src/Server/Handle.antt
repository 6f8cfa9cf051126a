-- ===== src/Server/Handle.antt =====
-- `dispatch_with_stats`, `stats_response` and the loop of `handle_connection`
-- (crates/alefs-server/src/handle.rs). The mutex runs one request at a time: a request is a step
-- from the store and the counters to the next ones. It is not poisoned.
use alefsdb.Prelude.{
  ℕ, ◌+◌, ◌%◌, ◌^◌, Bool, true, false, Option, none, some, List, [], ◌∷◌, Result, ok, err, ◌>>=◌,
  map_err, if◌then◌else◌, map,
}
use alefsdb.Bytes.{Bytes, text}
use alefsdb.Types.Value.{Value, typename}
use alefsdb.Types.DbPath.{DbPath, as_str}
use alefsdb.Namespace.Database.{EntryKind, directory, value_entry, Entry, get_entry}
use alefsdb.Namespace.Database as database
use alefsdb.Namespace.Walk.{no_value, export_json}
use alefsdb.Namespace.Json.Print.{ShowF64}
use alefsdb.Query.Ast.{QueryHit}
use alefsdb.Query.Execute.{execute}
use alefsdb.Server.Protocol.{
  Request, ping, stats, compact, export, mkdir, get, ls, rm, set, hset, lpush, sadd, tset, query,
  import, batch, Failure, walk, eval, bad_request, ListEntry, QueryHitDto, Response, ok_response,
  value_response, list_response, query_response, export_response, stats_response, err_response,
}
use alefsdb.Server.Values.{parse_path, format_value}
use alefsdb.Server.Store.{Compacting}
use alefsdb.Server.Action.{ns}
use alefsdb.Server.Mutations.{
  Env, run_mkdir, run_set, run_rm, run_hset, run_lpush, run_sadd, run_tset, run_compact, run_import,
  apply_batch,
}

-- The counters, of 64 bits.
pub record ServerStats : Type 0 where
  pub requests : ℕ
  pub mutations : ℕ
  pub queries : ℕ
  pub errors : ℕ

-- `fetch_add(1)`
abbrev pub bump : ℕ → ℕ
bump n = (n + 1) % 2 ^ 64

unfoldable pub count_query : ServerStats → ServerStats
count_query c = record c { queries = bump c.queries }

unfoldable pub count_mutation : ServerStats → ServerStats
count_mutation c = record c { mutations = bump c.mutations }

unfoldable pub count_request : ServerStats → ServerStats
count_request c = record c { requests = bump c.requests }

unfoldable pub count_error : ServerStats → ServerStats
count_error c = record c { errors = bump c.errors }

-- The first `match` of `dispatch_with_stats`.
unfoldable pub counted : Request → ServerStats → ServerStats
counted (query q) c = count_query c
counted ping c = c
counted stats c = c
counted (get p) c = c
counted (ls p) c = c
counted export c = c
counted r c = count_mutation c

unfoldable pub kind_name : EntryKind → Bytes
kind_name directory = text "dir"
kind_name value_entry = text "val"

unfoldable pub list_entry : Bytes × EntryKind → ListEntry
list_entry (name, kind) = record { name = name; kind = kind_name kind }

unfoldable pub hit_dto : QueryHit → QueryHitDto
hit_dto h = record { path = as_str h.path; type_name = h.type_name }

-- `e.value.unwrap()`
unfoldable pub show_value : ShowF64 → Option Value → Result Failure Response
show_value show_f64 none = err (walk no_value)
show_value show_f64 (some v) = ok (value_response (typename v) (format_value show_f64 v))

unfoldable pub show_entry : ShowF64 → DbPath → Entry → Result Failure Response
show_entry show_f64 p e = elim e.kind [
  | directory ↦ ok (value_response (text "directory") (as_str p))
  | value_entry ↦ show_value show_f64 e.value
]

module _ (C : Compacting) (env : Env) where
  abbrev pub Store : Type 0
  Store = C.storage.Store

  abbrev pub Ran : Type 0
  Ran = Store × Result Failure Response

  unfoldable pub run_get : Store → Bytes → Ran
  run_get s path =
      (s, do p ← parse_path path; e ← ns (get_entry C.storage s p); show_entry env.show_f64 p e)

  unfoldable pub run_ls : Store → Bytes → Ran
  run_ls s path = (
    s,
    do
      p ← parse_path path
      rows ← ns (database.list C.storage s p)
      ok (list_response (map list_entry rows)),
  )

  unfoldable pub run_query : Store → Bytes → Ran
  run_query s q = (
    s,
    do
      found ← map_err (λ e. eval e) (execute C.storage s env.parse_f64 env.fuel q)
      ok (query_response (map hit_dto found)),
  )

  unfoldable pub run_export : Store → Ran
  run_export s = (
    s,
    do
      json ← map_err (λ e. walk e) (export_json C.storage s env.show_f64 env.fuel)
      ok (export_response json),
  )

  unfoldable pub run_stats : Store → ServerStats → Response
  run_stats s c = stats_response (record {
    uptime_sec = env.uptime_sec;
    requests = c.requests;
    mutations = c.mutations;
    queries = c.queries;
    errors = c.errors;
    keys_approx = C.keys s;
  })

  -- The second `match`, with the counters as the first leaves them.
  unfoldable pub run : Store → ServerStats → Request → Ran
  run s c ping = (s, ok (ok_response (text "pong")))
  run s c stats = (s, ok (run_stats s c))
  run s c (batch rs) = apply_batch C env rs s
  run s c (mkdir path) = run_mkdir C env path s
  run s c (set path ty raw) = run_set C env path ty raw s
  run s c (get path) = run_get s path
  run s c (ls path) = run_ls s path
  run s c (rm path) = run_rm C env path s
  run s c (hset path key ty raw) = run_hset C env path key ty raw s
  run s c (lpush path ty raw) = run_lpush C env path ty raw s
  run s c (sadd path ty raw) = run_sadd C env path ty raw s
  run s c (tset path key ty raw) = run_tset C env path key ty raw s
  run s c (query q) = run_query s q
  run s c compact = run_compact C env s
  run s c export = run_export s
  run s c (import json) = run_import C env json s

  -- `Ok(r) => r` and `Err(e) => Response::Err`.
  unfoldable pub response_of : Result Failure Response → Response
  response_of (ok r) = r
  response_of (err e) = err_response e

  unfoldable pub dispatch_with_stats :
      Store → ServerStats → Request → Store × ServerStats × Response
  dispatch_with_stats s c r =
      let c' = counted r c in let (t, out) = run s c' r in (t, c', response_of out)

  unfoldable pub is_err : Response → Bool
  is_err (err_response e) = true
  is_err r = false

  -- A round of `handle_connection` on a message that `serde_json` decodes, or does not.
  unfoldable pub handle_message :
      Store → ServerStats → Option Request → Store × ServerStats × Response
  handle_message s c none = (s, count_error c, err_response bad_request)
  handle_message s c (some r) =
      let (t, c', response) = dispatch_with_stats s (count_request c) r in
      (t, if is_err response then count_error c' else c', response)

  unfoldable pub handle_all :
      Store → ServerStats → List (Option Request) → Store × ServerStats × List Response
  handle_all s c [] = (s, c, [])
  handle_all s c (m ∷ ms) =
      let (t, c', response) = handle_message s c m in
      let (u, c'', responses) = handle_all t c' ms in (u, c'', response ∷ responses)
