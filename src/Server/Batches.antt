-- ===== src/Server/Batches.antt =====
-- A batch against its requests one by one.
use alefsdb.Prelude.{◌≡◌, refl, ap, ◌∙◌, Bool, true, false, List, [], ◌∷◌, ◌++◌, Result, ok, length}
use alefsdb.Prelude.Order.{nat_ord, list_ord}
use alefsdb.Prelude.OrdMap.{Sorted}
use alefsdb.Bytes.{Bytes, text}
use alefsdb.Bytes.Decimal.{show_nat}
use alefsdb.Types.Value.{Value}
use alefsdb.Types.DbPath.{DbPath}
use alefsdb.Namespace.Errors.{NsError}
use alefsdb.Namespace.Database as database
use alefsdb.Namespace.Overlay.{
  TxnOp, mkdir_op, set_op, delete_op, hash_set_op, list_push_op, set_add_op, tree_set_op,
}
use alefsdb.Namespace.Overlay.Direct.{run_one, run_each, apply_txn-run_each}
use alefsdb.Server.Protocol.{
  Request, ping, stats, compact, export, mkdir, get, ls, rm, set, hset, lpush, sadd, tset, query,
  import, batch, Requests, no_requests, request, Failure, Response, ok_response,
}
use alefsdb.Server.Values.{parse_path, parse_value, tree_key, request_to_txn, requests_to_txn}
use alefsdb.Server.Store.{Compacting}
use alefsdb.Namespace.Overlay.{apply_txn}
use alefsdb.Server.Action.{lift, update, pure, ◌>>=◌, ◌>>◌, lift-ok, update-ok, update-eq-ok}
use alefsdb.Server.Mutations.{
  Env, ok_path, run_mkdir, run_set, run_rm, run_hset, run_lpush, run_sadd, run_tset, apply_batch,
}
use alefsdb.Server.Handle.{ServerStats, run}

-- The requests that a batch takes.
abbrev pub in_batch : Request → Bool
in_batch (mkdir p) = true
in_batch (set p ty v) = true
in_batch (rm p) = true
in_batch (hset p k ty v) = true
in_batch (lpush p ty v) = true
in_batch (sadd p ty v) = true
in_batch (tset p k ty v) = true
in_batch r = false

module _ (C : Compacting) (env : Env) where
  abbrev pub S : Type 0
  S = C.storage.Store

  -- The requests one by one, each with its own commit, and none of them fails.
  abbrev pub Succeed : S → ServerStats → Requests → S → Type 0
  Succeed s c no_requests u = s ≡ u
  Succeed s c (request r rs) u =
      (in_batch r ≡ true)
      × (t : S) × (answer : Response) × (run C env s c r ≡ (t, ok answer))
      × Succeed t c rs u

  -- An operation on a path, and one on a path and a value.
  action_path :
      (s t : S) (a : Response) (p : Result Failure DbPath) (op : S → DbPath → Result NsError S)
      (answer : DbPath → Response)
      → (lift p >>= λ q. update (λ x. op x q) >> pure (answer q)) s ≡ (t, ok a)
      → (q : DbPath) × (p ≡ ok q) × (op s q ≡ ok t)
  action_path s t a p op answer h =
      let (q, pq, e) = lift-ok p (λ q. update (λ x. op x q) >> pure (answer q)) s t a h in
      let (u, o, f) = update-ok (λ x. op x q) (λ w. pure (answer q)) s t a e in (q, pq, o ∙ cc (f))

  action_value :
      (s t : S) (a : Response) (p : Result Failure DbPath) (v : Result Failure Value)
      (op : S → DbPath → Value → Result NsError S) (answer : DbPath → Response)
      → (lift p >>= λ q. lift v >>= λ w. update (λ x. op x q w) >> pure (answer q)) s ≡ (t, ok a)
      → (q : DbPath) × (w : Value) × (p ≡ ok q) × (v ≡ ok w) × (op s q w ≡ ok t)
  action_value s t a p v op answer h =
      let (q, pq, e) =
        lift-ok p (λ q. lift v >>= λ w. update (λ x. op x q w) >> pure (answer q)) s t a h in
      let (w, vw, f) = lift-ok v (λ w. update (λ x. op x q w) >> pure (answer q)) s t a e in
      let (u, o, g) = update-ok (λ x. op x q w) (λ y. pure (answer q)) s t a f in
      (q, w, pq, vw, o ∙ cc (g))

  run_one-run :
      (s t : S) (c : ServerStats) (r : Request) (a : Response)
      → in_batch r ≡ true
      → run C env s c r ≡ (t, ok a)
      → (op : TxnOp) × (request_to_txn env.parse_f64 r ≡ ok op) × (run_one C.storage s op ≡ ok t)
  unfolding run run_mkdir run_set run_rm run_hset run_lpush run_sadd run_tset request_to_txn run_one
  run_one-run s t c (mkdir path) a i h =
      let (p, e, o) = action_path s t a (parse_path path) (database.mkdir C.storage) ok_path h in
      (mkdir_op p, rw e refl, o)
  run_one-run s t c (rm path) a i h =
      let (p, e, o) = action_path s t a (parse_path path) (database.delete C.storage) ok_path h in
      (delete_op p, rw e refl, o)
  run_one-run s t c (set path ty raw) a i h =
      let (p, v, e, f, o) =
        action_value s t a (parse_path path) (parse_value env.parse_f64 ty raw)
          (database.set C.storage) ok_path h in
      (set_op p v, rw (e, f) refl, o)
  run_one-run s t c (hset path k ty raw) a i h =
      let (p, v, e, f, o) =
        action_value s t a (parse_path path) (parse_value env.parse_f64 ty raw)
          (λ x q w. database.hash_set C.storage x q k w) (λ q. ok_response (text "ok")) h in
      (hash_set_op p k v, rw (e, f) refl, o)
  run_one-run s t c (lpush path ty raw) a i h =
      let (p, v, e, f, o) =
        action_value s t a (parse_path path) (parse_value env.parse_f64 ty raw)
          (database.list_push C.storage) (λ q. ok_response (text "ok")) h in
      (list_push_op p v, rw (e, f) refl, o)
  run_one-run s t c (sadd path ty raw) a i h =
      let (p, v, e, f, o) =
        action_value s t a (parse_path path) (parse_value env.parse_f64 ty raw)
          (database.set_add C.storage) (λ q. ok_response (text "ok")) h in
      (set_add_op p v, rw (e, f) refl, o)
  run_one-run s t c (tset path k ty raw) a i h =
      let (p, v, e, f, o) =
        action_value s t a (parse_path path) (parse_value env.parse_f64 ty raw)
          (λ x q w. database.tree_set C.storage x q (tree_key k) w) (λ q. ok_response (text "ok"))
          h in
      (tree_set_op p (tree_key k) v, rw (e, f) refl, o)
  run_one-run s t c ping a i h = cc
  run_one-run s t c stats a i h = cc
  run_one-run s t c compact a i h = cc
  run_one-run s t c export a i h = cc
  run_one-run s t c (get p) a i h = cc
  run_one-run s t c (ls p) a i h = cc
  run_one-run s t c (query q) a i h = cc
  run_one-run s t c (import j) a i h = cc
  run_one-run s t c (batch rs) a i h = cc

  run_each-Succeed :
      (s u : S) (c : ServerStats) (rs : Requests)
      → Succeed s c rs u
      → (ops : List TxnOp) × (requests_to_txn env.parse_f64 rs ≡ ok ops)
        × (run_each C.storage s ops ≡ ok u)
  unfolding requests_to_txn run_each
  run_each-Succeed s u c no_requests h = ([], refl, ap (λ x. ok x) h)
  run_each-Succeed s u c (request r rs) (i, t, a, e, h) =
      let (op, q, o) = run_one-run s t c r a i e in
      let (ops, qs, os) = run_each-Succeed t u c rs h in (op ∷ ops, rw (q, qs) refl, rw o os)

  -- Requests that all succeed one by one, each with its own commit, succeed as one batch, which
  -- leaves the map that they leave, if the map was sorted.
  pub apply_batch-Succeed :
      (s u : S) (c : ServerStats) (rs : Requests)
      → Sorted (C.storage.view s)
      → Succeed s c rs u
      → (t : S) × (n : Bytes) × (run C env s c (batch rs)
          ≡ (t, ok (ok_response (text "ok batch " ++ n))))
        × (C.storage.view t ≡ C.storage.view u)
  unfolding run apply_batch
  apply_batch-Succeed s u c rs sorted h =
      let (ops, q, o) = run_each-Succeed s u c rs h in
      let (t, e, v) = apply_txn-run_each C.storage s u ops sorted o in
      let n = show_nat (length ops) in
      let answer = ok_response (text "ok batch " ++ n) in
      (t, n, rw q (update-eq-ok (λ x. apply_txn C.storage x ops) (λ w. pure answer) s t e), v)
