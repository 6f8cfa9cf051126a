-- ===== src/Query/Execute/Complete.antt =====
-- The walk of all entries against the paths that are reached by listing directories.
use mathlib.Core.List.{Memᴰ}
use mathlib.Core.List.Memᴰ.{head, tail, cases_cons, not-nil}
use alefsdb.Prelude.{
  ℕ, zero, suc, ◌≡◌, ◌≢◌, refl, ap, ◌∙◌, sym, subst, true, none, List, [], ◌∷◌, ◌++◌, Result, ok,
  ◌>>=◌, map_err, >>=-eq-ok, ok-injective, Bool-cases, inl, inr,
}
use alefsdb.Bytes.{Bytes}
use alefsdb.Types.DbPath.{DbPath, root, join}
use alefsdb.Storage.Memory.{Storage}
use alefsdb.Namespace.Errors.{path}
use alefsdb.Namespace.Database.{EntryKind, directory, value_entry, Entry, get_entry}
use alefsdb.Namespace.Walk.{WalkError, ns, each_child, entry_at, rows_at}
use alefsdb.Query.Ast.{Expr, QueryHit}
use alefsdb.Query.Eval.{eval_expr, hit_type, hits, required_concrete_type}
use alefsdb.Query.Execute.{
  ns_error, entries_of, walk, all_entries, candidates_of, candidates_for, evaluate,
}
use alefsdb.Query.Execute.Sound.{map_err-ok}

Memᴰ-append-right {ℓ} : {A : Type ℓ} (a : A) (xs ys : List A) → Memᴰ a ys → Memᴰ a (xs ++ ys)
Memᴰ-append-right a [] ys m = m
Memᴰ-append-right a (x ∷ xs) ys m = tail (Memᴰ-append-right a xs ys m)

Memᴰ-append-left {ℓ} : {A : Type ℓ} (a : A) (xs ys : List A) → Memᴰ a xs → Memᴰ a (xs ++ ys)
Memᴰ-append-left a [] ys m = absurd (not-nil m)
Memᴰ-append-left a (x ∷ xs) ys m = elim (cases_cons m) [
  | inl e ↦ head e
  | inr n ↦ tail (Memᴰ-append-left a xs ys n)
]

-- Each child is walked, and what the walk made of it is among the results.
each_child-Memᴰ {ℓ} :
    {A : Type ℓ} (go : DbPath → Result WalkError A) (p : DbPath) (rows : List (Bytes × EntryKind))
    (out : List (Bytes × A)) (row : Bytes × EntryKind) (c : DbPath)
    → each_child go p rows ≡ ok out
    → Memᴰ row rows
    → join p row.0 ≡ ok c
    → (a : A) × (go c ≡ ok a) × Memᴰ (row.0, a) out
unfolding each_child
each_child-Memᴰ go p [] out row c h m j = absurd (not-nil m)
each_child-Memᴰ go p ((name, kind) ∷ rows) out row c h m j =
    let (d, jd, h1) = >>=-eq-ok (map_err (λ e. ns (path e)) (join p name)) _ h in
    let (a, g, h2) = >>=-eq-ok (go d) _ h1 in
    let (rest, r, h3) = >>=-eq-ok (each_child go p rows) _ h2 in
    let shape = ok-injective _ out h3 in
    elim (cases_cons m) [
      | inl e ↦
          let n : row.0 ≡ name = ap (λ x. x.0) e in
          let jn : join p row.0 ≡ ok d =
            subst (λ x. join p x ≡ ok d) (sym n)
              (map_err-ok (λ e'. ns (path e')) (join p name) jd) in
          let same : d ≡ c = ok-injective d c (sym jn ∙ j) in
          (
            a,
            subst (λ x. go x ≡ ok a) same g,
            subst (λ o. Memᴰ (row.0, a) o) shape (head (ap (λ x. (x, a)) n)),
          )
      | inr n ↦
          let (b, g', k) = each_child-Memᴰ go p rows rest row c r n j in
          (b, g', subst (λ o. Memᴰ (row.0, b) o) shape (tail k))
    ]

entries_of-Memᴰ :
    (below : List (Bytes × List Entry)) (row : Bytes × List Entry) (e : Entry)
    → Memᴰ row below
    → Memᴰ e row.1
    → Memᴰ e (entries_of below)
unfolding entries_of
entries_of-Memᴰ [] row e m k = absurd (not-nil m)
entries_of-Memᴰ ((name, es) ∷ rest) row e m k = elim (cases_cons m) [
  | inl q ↦
      let k' : Memᴰ e es = subst (λ r. Memᴰ e r.1) q k in Memᴰ-append-left e es (entries_of rest) k'
  | inr n ↦ Memᴰ-append-right e es (entries_of rest) (entries_of-Memᴰ rest row e n k)
]

at_directory {ℓ} :
    {A : Type ℓ} (a b : A) (k : EntryKind)
    → k ≡ directory
    → (elim k [ directory ↦ a | value_entry ↦ b ]) ≡ a
at_directory a b directory h = refl
at_directory a b value_entry h = cc

module _ (S : Storage) (s : S.Store) where
  -- The second path is reached from the first by listing directories.
  pub data Below : DbPath → DbPath → Type 0 where
    at_top : (p : DbPath) → Below p p
    under :
        (p c q : DbPath) (rows : List (Bytes × EntryKind)) (row : Bytes × EntryKind)
        → (e : Entry) × (get_entry S s p ≡ ok e) × (e.kind ≡ directory)
        → rows_at S s p ≡ ok rows
        → Memᴰ row rows
        → join p row.0 ≡ ok c
        → Below c q
        → Below p q

  entry_at-ok : (p : DbPath) (e : Entry) → get_entry S s p ≡ ok e → entry_at S s p ≡ ok e
  unfolding entry_at
  entry_at-ok p e h = rw h refl

  walk_dir :
      (f : ℕ) (p : DbPath) (e : Entry) (rows : List (Bytes × EntryKind))
      → get_entry S s p ≡ ok e
      → e.kind ≡ directory
      → rows_at S s p ≡ ok rows
      → walk S s (suc f) p ≡ (each_child (walk S s f) p rows >>= λ below. ok (e ∷ entries_of below))
  unfolding walk
  walk_dir f p e rows h k r = rw (entry_at-ok p e h) (at_directory _ _ e.kind k ∙ rw r refl)

  -- The walk lists the entry of its path first.
  walk_head :
      (f : ℕ) (p : DbPath) (es : List Entry) (e : Entry)
      → walk S s f p ≡ ok es
      → get_entry S s p ≡ ok e
      → Memᴰ e es
  unfolding walk
  walk_head zero p es e h g = cc
  walk_head (suc f) p es e h g = go e.kind (rw (entry_at-ok p e g) at h)
    where
      go :
          (k : EntryKind)
          → (elim k [
            | directory ↦ rows_at S s p >>= λ rows.
                each_child (walk S s f) p rows >>= λ below. ok (e ∷ entries_of below)
            | value_entry ↦ ok (e ∷ [])
          ])
            ≡ ok es
          → Memᴰ e es
      go directory h =
          let (rows, r, h1) = >>=-eq-ok (rows_at S s p) _ h in
          let (below, b, h2) = >>=-eq-ok (each_child (walk S s f) p rows) _ h1 in
          subst (Memᴰ e) (ok-injective _ es h2) (head refl)
      go value_entry h = subst (Memᴰ e) (ok-injective _ es h) (head refl)

  no_fuel : (p : DbPath) (es : List Entry) → walk S s zero p ≢ ok es
  unfolding walk
  no_fuel p es = cc

  walk_complete :
      (p q : DbPath)
      → Below p q
      → (f : ℕ) (es : List Entry) (e : Entry) → walk S s f p ≡ ok es
      → get_entry S s q ≡ ok e
      → Memᴰ e es
  walk_complete _ _ (at_top p) f es e h g = walk_head f p es e h g
  walk_complete _ _ (under p c q rows row (d, gd, k) r m j b) zero es e h g =
      absurd (no_fuel p es h)
  walk_complete _ _ (under p c q rows row (d, gd, k) r m j b) (suc f) es e h g =
      let (below, w, h1) =
        >>=-eq-ok (each_child (walk S s f) p rows) _ (sym (walk_dir f p d rows gd k r) ∙ h) in
      let (cs, wc, mc) = each_child-Memᴰ (walk S s f) p rows below row c w m j in
      subst (Memᴰ e) (ok-injective _ es h1)
        (tail (entries_of-Memᴰ below (row.0, cs) e mc (walk_complete c q b f cs e wc g)))

  pub hits-Memᴰ :
      (x : Expr) (es : List Entry) (e : Entry)
      → Memᴰ e es
      → eval_expr x e.path e.kind e.value ≡ true
      → Memᴰ (record { path = e.path; type_name = hit_type e.kind e.value }) (hits x es)
  unfolding hits
  hits-Memᴰ x [] e m t = absurd (not-nil m)
  hits-Memᴰ x (c ∷ cs) e m t = elim (cases_cons m) [
    | inl q ↦
        let here : eval_expr x c.path c.kind c.value ≡ true =
          subst (λ y. eval_expr x y.path y.kind y.value ≡ true) q t in
        rw here (head (ap (λ y. record { path = y.path; type_name = hit_type y.kind y.value }) q))
    | inr n ↦ elim (Bool-cases (eval_expr x c.path c.kind c.value)) [
      | inl here ↦ rw here (tail (hits-Memᴰ x cs e n t))
      | inr other ↦ rw other (hits-Memᴰ x cs e n t)
    ]
  ]

  -- A query that requires no one type finds every entry that is reached from the root by listing
  -- directories and that satisfies the expression.
  pub evaluate_complete :
      (fuel : ℕ) (x : Expr) (found : List QueryHit) (q : DbPath) (e : Entry)
      → required_concrete_type x ≡ none
      → evaluate S s fuel x ≡ ok found
      → Below root q
      → get_entry S s q ≡ ok e
      → eval_expr x e.path e.kind e.value ≡ true
      → Memᴰ (record { path = e.path; type_name = hit_type e.kind e.value }) found
  unfolding evaluate candidates_for
  evaluate_complete fuel x found q e n h b g t =
      let (es, c, shape) =
        >>=-eq-ok (map_err (λ why. ns_error why) (candidates_for S s fuel x)) _ h in
      let w = map_err-ok (λ why. ns_error why) (candidates_for S s fuel x) c in
      subst (λ hs. Memᴰ (record { path = e.path; type_name = hit_type e.kind e.value }) hs)
        (ok-injective _ found shape)
        (hits-Memᴰ x es e (walk_complete root q b fuel es e (all fuel es (rw n at w)) g) t)
    where
      all :
          (fuel : ℕ) (es : List Entry)
          → candidates_of S s fuel none ≡ ok es
          → walk S s fuel root ≡ ok es
      all fuel es w = unfold candidates_of all_entries in w
