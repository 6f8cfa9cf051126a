-- ===== src/Query/Execute/Sound.antt =====
-- The hits of a query against the stored entries.
use alefsdb.Prelude.{
  ℕ, zero, suc, ◌≡◌, refl, ap, sym, subst, true, Option, none, some, List, [], ◌∷◌, ◌++◌, Result,
  ok, err, ◌>>=◌, map_err, All, >>=-eq-ok, ok-injective, Bool-cases, inl, inr,
}
use alefsdb.Bytes.{Bytes}
use alefsdb.Types.DbPath.{DbPath, root, join}
use alefsdb.Storage.Memory.{Storage}
use alefsdb.Namespace.Errors.{path}
use alefsdb.Namespace.Keys.{NodeRecord, dir, value}
use alefsdb.Namespace.Database.{
  EntryKind, directory, value_entry, Entry, get_entry, entry_of, paths_with_type, resolve,
}
use alefsdb.Namespace.Resolve.{decode_node}
use alefsdb.Namespace.Walk.{WalkError, ns, each_child, entry_at, rows_at}
use alefsdb.Query.Ast.{Expr, QueryHit}
use alefsdb.Query.Eval.{
  eval_expr, hit_type, hits, get_entries, indexed_candidates, required_concrete_type,
}
use alefsdb.Query.Execute.{
  ns_error, entries_of, walk, all_entries, candidates_of, candidates_for, evaluate,
}

pub map_err-ok {ℓ ℓ' κ} :
    {E : Type ℓ} {F : Type ℓ'} {A : Type κ} (f : E → F) (r : Result E A) {a : A}
    → map_err f r ≡ ok a
    → r ≡ ok a
map_err-ok f (ok b) h = cc
map_err-ok f (err e) h = cc

All-append {ℓ κ} :
    {A : Type ℓ} (P : A → Type κ) (xs ys : List A) → All P xs → All P ys → All P (xs ++ ys)
All-append P [] ys hx hy = hy
All-append P (x ∷ xs) ys hx hy = (hx.0, All-append P xs ys hx.1 hy)

entry_of_path : (p : DbPath) (rec : NodeRecord) (e : Entry) → entry_of p rec ≡ ok e → e.path ≡ p
unfolding entry_of
entry_of_path p dir e h = sym (ap (λ x. x.path) (ok-injective _ e h))
entry_of_path p (value enc) e h =
    let (v, d, q) = >>=-eq-ok (decode_node enc) _ h in sym (ap (λ x. x.path) (ok-injective _ e q))

-- What holds of the result at each child holds of all results.
each_child-All {ℓ κ} :
    {A : Type ℓ} (Q : A → Type κ) (go : DbPath → Result WalkError A) (p : DbPath)
    (rows : List (Bytes × EntryKind)) (out : List (Bytes × A))
    → ((c : DbPath) (a : A) → go c ≡ ok a → Q a)
    → each_child go p rows ≡ ok out
    → All (λ r. Q r.1) out
unfolding each_child
each_child-All Q go p [] out q h = subst (λ o. All (λ r. Q r.1) o) (ok-injective [] out h) tt
each_child-All Q go p ((name, kind) ∷ rows) out q h =
    let (c, j, h1) = >>=-eq-ok (map_err (λ e. ns (path e)) (join p name)) _ h in
    let (a, g, h2) = >>=-eq-ok (go c) _ h1 in
    let (rest, r, h3) = >>=-eq-ok (each_child go p rows) _ h2 in
    subst (λ o. All (λ r. Q r.1) o) (ok-injective _ out h3)
      (q c a g, each_child-All Q go p rows rest q r)

module _ (S : Storage) (s : S.Store) where
  -- The entry is what `get` returns at its path.
  abbrev pub IsStored : Entry → Type 0
  IsStored e = get_entry S s e.path ≡ ok e

  get_entry-IsStored : (p : DbPath) (e : Entry) → get_entry S s p ≡ ok e → IsStored e
  unfolding get_entry
  get_entry-IsStored p e h =
      let (found, r, q) = >>=-eq-ok (resolve S s p) _ h in
      subst (λ x. get_entry S s x ≡ ok e) (sym (entry_of_path p found.1 e q)) h

  entry_at-IsStored : (p : DbPath) (e : Entry) → entry_at S s p ≡ ok e → IsStored e
  unfolding entry_at
  entry_at-IsStored p e h = get_entry-IsStored p e (map_err-ok (λ x. ns x) (get_entry S s p) h)

  entries_of-All :
      (below : List (Bytes × List Entry))
      → All (λ r. All IsStored r.1) below
      → All IsStored (entries_of below)
  unfolding entries_of
  entries_of-All [] h = tt
  entries_of-All ((name, es) ∷ rest) h =
      All-append IsStored es (entries_of rest) h.0 (entries_of-All rest h.1)

  -- All that the walk lists is stored.
  walk-IsStored : (f : ℕ) (p : DbPath) (es : List Entry) → walk S s f p ≡ ok es → All IsStored es
  unfolding walk
  walk-IsStored zero p es h = cc
  walk-IsStored (suc f) p es h =
      let (e, a, h1) = >>=-eq-ok (entry_at S s p) _ h in
      at_kind f p es e (entry_at-IsStored p e a) (walk-IsStored f) e.kind h1
    where
      at_kind :
          (f : ℕ) (p : DbPath) (es : List Entry) (e : Entry)
          → IsStored e
          → ((c : DbPath) (cs : List Entry) → walk S s f c ≡ ok cs → All IsStored cs)
          → (k : EntryKind)
          → (elim k [
            | directory ↦ rows_at S s p >>= λ rows.
                each_child (walk S s f) p rows >>= λ below. ok (e ∷ entries_of below)
            | value_entry ↦ ok (e ∷ [])
          ])
            ≡ ok es
          → All IsStored es
      at_kind f p es e i ih directory h =
          let (rows, r, h1) = >>=-eq-ok (rows_at S s p) _ h in
          let (below, b, h2) = >>=-eq-ok (each_child (walk S s f) p rows) _ h1 in
          subst (All IsStored) (ok-injective _ es h2)
            (i, entries_of-All below (each_child-All (All IsStored) (walk S s f) p rows below ih b))
      at_kind f p es e i ih value_entry h = subst (All IsStored) (ok-injective _ es h) (i, tt)

  get_entries-IsStored :
      (ps : List DbPath) (es : List Entry) → get_entries S s ps ≡ ok es → All IsStored es
  unfolding get_entries
  get_entries-IsStored [] es h = subst (All IsStored) (ok-injective [] es h) tt
  get_entries-IsStored (p ∷ ps) es h =
      let (e, a, h1) = >>=-eq-ok (get_entry S s p) _ h in
      let (rest, r, h2) = >>=-eq-ok (get_entries S s ps) _ h1 in
      subst (All IsStored) (ok-injective _ es h2)
        (get_entry-IsStored p e a, get_entries-IsStored ps rest r)

  candidates-IsStored :
      (f : ℕ) (o : Option Bytes) (es : List Entry) → candidates_of S s f o ≡ ok es → All IsStored es
  unfolding candidates_of all_entries indexed_candidates
  candidates-IsStored f none es h = walk-IsStored f root es h
  candidates-IsStored f (some ty) es h =
      let q = map_err-ok (λ x. ns x) (indexed_candidates S s ty) h in
      let (ps, a, h1) = >>=-eq-ok (paths_with_type S s ty) _ q in get_entries-IsStored ps es h1

  -- A hit: a stored entry that satisfies the expression, with the name of its type.
  abbrev pub IsHit : Expr → QueryHit → Type 0
  IsHit e h =
      (en : Entry) × (get_entry S s h.path ≡ ok en)
      × (eval_expr e en.path en.kind en.value ≡ true)
      × (h.type_name ≡ hit_type en.kind en.value)

  hits-IsHit : (e : Expr) (es : List Entry) → All IsStored es → All (IsHit e) (hits e es)
  unfolding hits
  hits-IsHit e [] h = tt
  hits-IsHit e (c ∷ cs) h = elim (Bool-cases (eval_expr e c.path c.kind c.value)) [
    | inl q ↦ rw q ((c, h.0, q, refl), hits-IsHit e cs h.1)
    | inr q ↦ rw q (hits-IsHit e cs h.1)
  ]

  -- Every hit of a query, from the type index or from the walk of all entries, is an entry that
  -- `get` returns at its path, that satisfies the expression and whose type it names.
  pub evaluate_sound :
      (fuel : ℕ) (e : Expr) (found : List QueryHit)
      → evaluate S s fuel e ≡ ok found
      → All (IsHit e) found
  unfolding evaluate candidates_for
  evaluate_sound fuel e found h =
      let (es, c, q) = >>=-eq-ok (map_err (λ why. ns_error why) (candidates_for S s fuel e)) _ h in
      let stored =
        candidates-IsStored fuel (required_concrete_type e) es
          (map_err-ok (λ why. ns_error why) (candidates_for S s fuel e) c) in
      subst (All (IsHit e)) (ok-injective _ found q) (hits-IsHit e es stored)
