-- ===== src/Server/Protocol.antt =====
-- Requests and responses (crates/alefs-server/src/protocol.rs).
use alefsdb.Prelude.{ℕ, List}
use alefsdb.Bytes.{Bytes}
use alefsdb.Types.DbPath.{PathError}
use alefsdb.Namespace.Errors.{NsError}
use alefsdb.Namespace.Walk.{WalkError}
use alefsdb.Query.Execute.{EvalError}

-- The fields of a request in their order in the source; `Requests` is `Vec<Request>`.
mutual
  pub data Request : Type 0 where
    ping stats compact export : Request
    mkdir get ls rm : Bytes → Request
    set : Bytes → Bytes → Bytes → Request
    hset : Bytes → Bytes → Bytes → Bytes → Request
    lpush sadd : Bytes → Bytes → Bytes → Request
    tset : Bytes → Bytes → Bytes → Bytes → Request
    query import : Bytes → Request
    batch : Requests → Request

  pub data Requests : Type 0 where
    no_requests : Requests
    request : Request → Requests → Requests

-- The messages of `Response::Err`, with what each prints.
pub data Failure : Type 0 where
  bad_path : PathError → Failure
  bad_bool bad_int bad_float unknown_type : Bytes → Failure
  namespace : NsError → Failure
  walk : WalkError → Failure
  eval : EvalError → Failure
  not_in_batch : Request → Failure
  bad_request : Failure

pub record ListEntry : Type 0 where
  pub name : Bytes
  pub kind : Bytes

pub record QueryHitDto : Type 0 where
  pub path : Bytes
  pub type_name : Bytes

pub record Counts : Type 0 where
  pub uptime_sec : ℕ
  pub requests : ℕ
  pub mutations : ℕ
  pub queries : ℕ
  pub errors : ℕ
  pub keys_approx : ℕ

pub data Response : Type 0 where
  ok_response : Bytes → Response
  value_response : Bytes → Bytes → Response
  list_response : List ListEntry → Response
  query_response : List QueryHitDto → Response
  export_response : Bytes → Response
  stats_response : Counts → Response
  err_response : Failure → Response
