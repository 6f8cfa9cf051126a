-- ===== src/Server/Counters.antt =====
-- The counters of the server over the messages of a connection.
use alefsdb.Prelude.{
  ℕ, suc, ◌+◌, ◌%◌, ◌^◌, ◌<◌, ◌≡◌, refl, Bool, true, false, Option, none, some, List, [], ◌∷◌,
  arith, if◌then◌else◌, Bool-cases, inl, inr,
}
use alefsdb.Server.Protocol.{
  Request, ping, stats, compact, export, mkdir, get, ls, rm, set, hset, lpush, sadd, tset, query,
  import, batch, Response,
}
use alefsdb.Server.Store.{Compacting}
use alefsdb.Server.Mutations.{Env}
use alefsdb.Server.Handle.{
  ServerStats, count_query, count_mutation, count_request, count_error, counted,
  dispatch_with_stats, is_err, handle_message, handle_all,
}

-- The messages that decode, and the responses that are errors.
abbrev pub decoded : List (Option Request) → ℕ
decoded [] = 0
decoded (none ∷ ms) = decoded ms
decoded (some r ∷ ms) = suc (decoded ms)

module _ (C : Compacting) (env : Env) where
  abbrev pub failures : List Response → ℕ
  failures [] = 0
  failures (r ∷ rs) = if is_err C env r then suc (failures rs) else failures rs

  counted-rest :
      (r : Request) (c : ServerStats)
      → ((counted r c).requests ≡ c.requests) × ((counted r c).errors ≡ c.errors)
  unfolding counted count_query count_mutation
  counted-rest ping c = (refl, refl)
  counted-rest stats c = (refl, refl)
  counted-rest compact c = (refl, refl)
  counted-rest export c = (refl, refl)
  counted-rest (mkdir p) c = (refl, refl)
  counted-rest (get p) c = (refl, refl)
  counted-rest (ls p) c = (refl, refl)
  counted-rest (rm p) c = (refl, refl)
  counted-rest (set p ty v) c = (refl, refl)
  counted-rest (hset p k ty v) c = (refl, refl)
  counted-rest (lpush p ty v) c = (refl, refl)
  counted-rest (sadd p ty v) c = (refl, refl)
  counted-rest (tset p k ty v) c = (refl, refl)
  counted-rest (query q) c = (refl, refl)
  counted-rest (import j) c = (refl, refl)
  counted-rest (batch rs) c = (refl, refl)

  abbrev pub Counted : ServerStats → ServerStats → ℕ → ℕ → Type 0
  Counted c d requests errors =
      (d.requests ≡ (c.requests + requests) % 2 ^ 64) × (d.errors ≡ (c.errors + errors) % 2 ^ 64)

  Counted-trans :
      (c d e : ServerStats) (r r' x x' : ℕ)
      → Counted c d r x
      → Counted d e r' x'
      → Counted c e (r + r') (x + x')
  Counted-trans c d e r r' x x' (a, b) (a', b') = (omega (arith, a, a'), omega (arith, b, b'))

  decoded-cons :
      (m : Option Request) (ms : List (Option Request))
      → decoded (m ∷ ms) ≡ decoded (m ∷ []) + decoded ms
  decoded-cons none ms = omega arith
  decoded-cons (some r) ms = omega arith

  failures-cons :
      (r : Response) (rs : List Response)
      → failures (r ∷ rs) ≡ (if is_err C env r then 1 else 0) + failures rs
  failures-cons r rs = elim (Bool-cases (is_err C env r)) [
    | inl e ↦ rw e (omega arith)
    | inr e ↦ rw e (omega arith)
  ]

  error-Counted :
      (b : Bool) (c d : ServerStats)
      → d.requests ≡ (c.requests + 1) % 2 ^ 64
      → d.errors ≡ c.errors
      → c.errors < 2 ^ 64
      → Counted c (if b then count_error d else d) 1 (if b then 1 else 0)
  unfolding count_error
  error-Counted true c d r e l = (r, omega (arith, e))
  error-Counted false c d r e l = (r, omega (arith, e, l))

  message-Counted :
      (s : C.storage.Store) (c : ServerStats) (m : Option Request)
      → c.requests < 2 ^ 64
      → c.errors < 2 ^ 64
      → let out = handle_message C env s c m in
        Counted c out.1 (decoded (m ∷ [])) (if is_err C env out.2 then 1 else 0)
  unfolding handle_message dispatch_with_stats
  message-Counted s c none a b = unfold count_error is_err in (omega (arith, a), refl)
  message-Counted s c (some r) a b =
      let d = counted-rest r (count_request c) in
      error-Counted _ c (counted r (count_request c)) (unfold count_request in d.0)
        (unfold count_request in d.1) b

  -- The counters of requests and of errors grow by the messages that decode and by the responses
  -- that are errors, modulo 64 bits.
  pub handle_all-Counted :
      (s : C.storage.Store) (c : ServerStats) (ms : List (Option Request))
      → c.requests < 2 ^ 64
      → c.errors < 2 ^ 64
      → let out = handle_all C env s c ms in Counted c out.1 (decoded ms) (failures out.2)
  unfolding handle_all
  handle_all-Counted s c [] a b = (omega (arith, a), omega (arith, b))
  handle_all-Counted s c (m ∷ ms) a b =
      let out = handle_message C env s c m in
      let one = message-Counted s c m a b in
      let rest = handle_all-Counted out.0 out.1 ms (omega (arith, one.0)) (omega (arith, one.1)) in
      let later = (handle_all C env out.0 out.1 ms).2 in
      rw (decoded-cons m ms, failures-cons out.2 later)
        (Counted-trans c out.1 (handle_all C env out.0 out.1 ms).1 _ _ _ _ one rest)
