-- ===== src/Query/Execute/Indexed.antt =====
-- The candidates that `candidates_for` takes from the type index (crates/alefs-query/src/eval.rs).
use mathlib.Core.List.{Memᴰ}
use mathlib.Core.List.Memᴰ.{head, tail, cases_cons, not-nil}
use alefsdb.Prelude.{
  ℕ, ◌≡◌, ◌∙◌, sym, subst, true, some, List, [], ◌∷◌, ok, map_err, >>=-eq-ok, ok-injective, inl,
  inr,
}
use alefsdb.Prelude.OrdMap.{Sorted}
use alefsdb.Prelude.Order.{nat_ord, list_ord}
use alefsdb.Bytes.{Bytes}
use alefsdb.Types.Value.{Value, typename}
use alefsdb.Types.DbPath.{DbPath, IsPath}
use alefsdb.Types.Codec.Canonical.{IsCanonical}
use alefsdb.Storage.Memory.{Storage}
use alefsdb.Namespace.Keys.Apart.{IsU64}
use alefsdb.Namespace.Resolve.{next_id_with}
use alefsdb.Namespace.Database.{Entry, value_entry, get_entry, paths_with_type, set}
use alefsdb.Namespace.Database.Written.{get_entry-set}
use alefsdb.Namespace.Database.Indexed.{paths_with_type-set}
use alefsdb.Namespace.Walk.{ns}
use alefsdb.Query.Ast.{Expr, QueryHit}
use alefsdb.Query.Eval.{
  eval_expr, hit_type, get_entries, indexed_candidates, required_concrete_type,
}
use alefsdb.Query.Eval.Index.{required_concrete_type_sound}
use alefsdb.Query.Execute.{ns_error, candidates_of, candidates_for, evaluate}
use alefsdb.Query.Execute.Sound.{map_err-ok}
use alefsdb.Query.Execute.Complete.{hits-Memᴰ}

module _ (S : Storage) where
  get_entries-Memᴰ :
      (s : S.Store) (ps : List DbPath) (es : List Entry) (p : DbPath) (e : Entry)
      → get_entries S s ps ≡ ok es
      → Memᴰ p ps
      → get_entry S s p ≡ ok e
      → Memᴰ e es
  unfolding get_entries
  get_entries-Memᴰ s [] es p e h m g = absurd (not-nil m)
  get_entries-Memᴰ s (q ∷ ps) es p e h m g =
      let (d, a, h1) = >>=-eq-ok (get_entry S s q) _ h in
      let (rest, r, h2) = >>=-eq-ok (get_entries S s ps) _ h1 in
      subst (λ o. Memᴰ e o) (ok-injective _ es h2)
        (elim (cases_cons m) [
          | inl same_path ↦
              let b : get_entry S s p ≡ ok d =
                subst (λ x. get_entry S s x ≡ ok d) (sym same_path) a in
              head (ok-injective e d (sym g ∙ b))
          | inr n ↦ tail (get_entries-Memᴰ s ps rest p e r n g)
        ])

  -- The entry of a path that the index of a type lists is among the candidates of that type.
  candidates-Memᴰ :
      (s : S.Store) (fuel : ℕ) (t : Bytes) (es : List Entry) (p : DbPath) (e : Entry)
      → candidates_of S s fuel (some t) ≡ ok es
      → ((ps : List DbPath) → paths_with_type S s t ≡ ok ps → Memᴰ p ps)
      → get_entry S s p ≡ ok e
      → Memᴰ e es
  unfolding candidates_of indexed_candidates
  candidates-Memᴰ s fuel t es p e h listed g =
      let q = map_err-ok (λ x. ns x) (indexed_candidates S s t) h in
      let (ps, a, r) = >>=-eq-ok (paths_with_type S s t) _ q in
      get_entries-Memᴰ s ps es p e r (listed ps a) g

  -- After `set` of a canonical value at a well-formed path, on a sorted map whose counter of ids is a
  -- `u64`, a query that requires a type and that the value satisfies at the path has it among its
  -- hits, where the query returns.
  pub evaluate-set :
      (s s' : S.Store) (p : DbPath) (v : Value) (fuel : ℕ) (x : Expr) (t : Bytes)
      (found : List QueryHit)
      → Sorted (S.view s)
      → IsPath p
      → IsCanonical v
      → ((id : ℕ) → next_id_with (S.get_value s) ≡ ok id → IsU64 id)
      → set S s p v ≡ ok s'
      → required_concrete_type x ≡ some t
      → eval_expr x p value_entry (some v) ≡ true
      → evaluate S s' fuel x ≡ ok found
      → Memᴰ (record { path = p; type_name = typename v }) found
  unfolding evaluate candidates_for hit_type
  evaluate-set s s' p v fuel x t found sorted path_ok c u h r holds done =
      let (es, a, shape) =
        >>=-eq-ok (map_err (λ why. ns_error why) (candidates_for S s' fuel x)) _ done in
      let w = map_err-ok (λ why. ns_error why) (candidates_for S s' fuel x) a in
      let ty : typename v ≡ t = required_concrete_type_sound x t p value_entry (some v) r holds in
      let e : Entry = record { path = p; kind = value_entry; value = some v } in
      let listed : (ps : List DbPath) → paths_with_type S s' t ≡ ok ps → Memᴰ p ps = λ ps q.
        paths_with_type-set S s s' p v ps sorted path_ok h
          (subst (λ n. paths_with_type S s' n ≡ ok ps) (sym ty) q) in
      let m =
        candidates-Memᴰ s' fuel t es p e (subst (λ o. candidates_of S s' fuel o ≡ ok es) r w) listed
          (get_entry-set S s s' p v sorted c u h) in
      subst (λ hs. Memᴰ (record { path = p; type_name = typename v }) hs)
        (ok-injective _ found shape) (hits-Memᴰ S s' x es e m holds)
