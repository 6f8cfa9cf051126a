-- ===== src/Namespace/Database/Deleted.antt =====
-- `delete` followed by `get` (crates/alefs-namespace/src/db.rs).
use alefsdb.Prelude.{
  ℕ, ◌≡◌, ◌⊎◌, refl, ap, ◌∙◌, sym, subst, false, Option, none, some, [], List, ◌∷◌, ◌++◌, Result,
  ok, err, ◌>>=◌, ◌>>◌, >>=-eq-ok, ok_or, Bool-cases, inl, inr,
}
use alefsdb.Prelude.Order.{nat_ord, list_ord}
use alefsdb.Prelude.OrdMap.{get, Sorted, when_eq, Ordering-cases}
use alefsdb.Bytes.{Bytes, bytes_ord}
use alefsdb.Types.DbPath.{DbPath, is_root, as_str, parent, last_segment}
use alefsdb.Storage.Batch.{delete, WriteBatch, ByteMap}
use alefsdb.Storage.Batch.Replay.{effect_op, effect, get-apply_ops}
use alefsdb.Storage.Memory.{Storage}
use alefsdb.Namespace.Keys.{root_id, node_key, child_key, child_prefix, type_index_key, NodeRecord}
use alefsdb.Namespace.Keys.Apart.{node-ne-child, child-ne-index}
use alefsdb.Namespace.Errors.{NsError, not_found, invalid, no_parent, no_name}
use alefsdb.Namespace.Resolve.{Lookup, walk, resolve_with, node_type_name}
use alefsdb.Namespace.Ops.{require_empty, delete_ops}
use alefsdb.Namespace.Database.{resolve, get_entry, delete as delete_path}
use alefsdb.Namespace.Database.Written.Places.{at_same, at_other}
use alefsdb.Namespace.Database.Written.Walks.{
  split_path, parent-drop_last, ok_or-ok, walk-some, walk-resolve_with,
}

-- The rows that `delete` removes.
abbrev gone : ℕ → ℕ → Bytes → Bytes → WriteBatch
gone id up name type_name =
    delete (type_index_key type_name id) ∷ delete (child_key up name) ∷ delete (node_key id) ∷ []

gone-child :
    (id up : ℕ) (name type_name : Bytes) (a : ℕ) (s : Bytes) (o : Option Bytes)
    → effect (child_key a s) o (gone id up name type_name)
      ≡ when_eq (bytes_ord.cmp (child_key a s) (child_key up name)) none o
unfolding effect effect_op
gone-child id up name type_name a s o =
    rw
      (
        at_other (child_key a s) (type_index_key type_name id) none o
            (child-ne-index a id s type_name),
        at_other (child_key a s) (node_key id) none
            (when_eq (bytes_ord.cmp (child_key a s) (child_key up name)) none o)
            (λ e. node-ne-child id a s (sym e)),
      )
      refl

kept_or_none :
    (j k : Bytes) (o : Option Bytes)
    → (when_eq (bytes_ord.cmp j k) none o ≡ o) ⊎ (when_eq (bytes_ord.cmp j k) none o ≡ none)
kept_or_none j k o = elim (Ordering-cases (bytes_ord.cmp j k)) [
  | inl h ↦ rw h (inl refl)
  | inr (inl h) ↦ rw h (inr refl)
  | inr (inr h) ↦ rw h (inl refl)
]

-- A walk that succeeded, in a store that has lost its last name: it stops there, or before.
walk-lost :
    (look look' : Lookup) (p q : DbPath) (from up : ℕ) (segs : List Bytes) (name : Bytes)
    → ((a : ℕ) (s : Bytes)
        → (look' (child_key a s) ≡ look (child_key a s)) ⊎ (look' (child_key a s) ≡ none))
    → look' (child_key up name) ≡ none
    → walk look p from segs ≡ ok up
    → walk look' q from (segs ++ name ∷ []) ≡ err (not_found (as_str q))
unfolding walk
walk-lost look look' p q from up [] name keeps lost h =
    let e : look' (child_key from name) ≡ none =
      subst (λ n. look' (child_key n name) ≡ none) (cc h) lost in
    rw e refl
walk-lost look look' p q from up (s ∷ segs) name keeps lost h =
    let (r, next, e, d, rest) = walk-some look p from s segs up h in
    let on = walk-lost look look' p q next up segs name keeps lost rest in
    elim (keeps from s) [
      | inl same ↦ let k : look' (child_key from s) ≡ some r = same ∙ e in rw (k, d) on
      | inr none_left ↦ rw none_left refl
    ]

then-ok {ℓ κ κ'} :
    {E : Type ℓ} {A : Type κ} {B : Type κ'} (r : Result E A) (k : Result E B) {b : B}
    → r >> k ≡ ok b
    → k ≡ ok b
then-ok (ok a) k h = h
then-ok (err e) k h = absurd (cc h)

-- What a deletion that succeeds has found and removes.
delete_ops-gone :
    (look : Lookup) (scan : Bytes → ByteMap) (p : DbPath) (ops : WriteBatch)
    → delete_ops look scan p ≡ ok ops
    → (is_root p ≡ false)
      × (id : ℕ) × (up : ℕ) × (segs : List Bytes) × (name : Bytes) × (type_name : Bytes)
      × (p.segments ≡ segs ++ name ∷ [])
      × (q : DbPath) × (walk look q root_id segs ≡ ok up)
      × (ops ≡ gone id up name type_name)
unfolding delete_ops
delete_ops-gone look scan p ops h = elim (Bool-cases (is_root p)) [
  | inl r ↦ absurd (cc (rw r at h))
  | inr r ↦
      let from_name : ℕ × NodeRecord → DbPath → Bytes → Result NsError WriteBatch = λ found q name.
        resolve_with look q >>= λ above.
        node_type_name found.1 >>= λ type_name. ok (gone found.0 above.0 name type_name) in
      let from_parent : ℕ × NodeRecord → DbPath → Result NsError WriteBatch =
        λ found q. ok_or (invalid no_name) (last_segment p.segments) >>= from_name found q in
      let from_empty : ℕ × NodeRecord → Result NsError WriteBatch =
        λ found. ok_or (invalid no_parent) (parent p) >>= from_parent found in
      let (found, e0, h0) =
        >>=-eq-ok (resolve_with look p)
          (λ found. require_empty p found.1 (scan (child_prefix found.0)) >> from_empty found)
          (rw r at h) in
      let h1 =
        then-ok (require_empty p found.1 (scan (child_prefix found.0))) (from_empty found) h0 in
      let (q, e1, h2) = >>=-eq-ok (ok_or (invalid no_parent) (parent p)) (from_parent found) h1 in
      let (name, e2, h3) =
        >>=-eq-ok (ok_or (invalid no_name) (last_segment p.segments)) (from_name found q) h2 in
      let (above, e3, h4) =
        >>=-eq-ok (resolve_with look q)
          (λ above.
            node_type_name found.1 >>= λ type_name. ok (gone found.0 above.0 name type_name))
          h3 in
      let (type_name, e4, h5) =
        >>=-eq-ok (node_type_name found.1) (λ type_name. ok (gone found.0 above.0 name type_name))
          h4 in
      let segs = parent-drop_last p q (ok_or-ok (invalid no_parent) (parent p) q e1) in
      (
        r,
        found.0,
        above.0,
        q.segments,
        name,
        type_name,
        split_path p.segments name (ok_or-ok (invalid no_name) (last_segment p.segments) name e2)
            ∙ ap (λ ss. ss ++ name ∷ []) (sym segs),
        q,
        walk-resolve_with look q above e3,
        cc h5,
      )
]

lost-resolve_with :
    (look : Lookup) (p : DbPath)
    → is_root p ≡ false
    → walk look p root_id p.segments ≡ err (not_found (as_str p))
    → resolve_with look p ≡ err (not_found (as_str p))
unfolding resolve_with
lost-resolve_with look p r w = rw (r, w) refl

module _ (S : Storage) where
  -- After `delete` of a path that succeeds, `get` of the path is `NotFound`, if the map is sorted.
  pub get_entry-delete :
      (s s' : S.Store) (p : DbPath)
      → Sorted (S.view s)
      → delete_path S s p ≡ ok s'
      → get_entry S s' p ≡ err (not_found (as_str p))
  unfolding delete_path get_entry resolve
  get_entry-delete s s' p sorted h =
      let look = S.get_value s in
      let (ops, e, q) = >>=-eq-ok (delete_ops look (S.scan s) p) (λ ops. ok (S.commit s ops)) h in
      let (r, id, up, segs, name, type_name, parts, above, w, removed) =
        delete_ops-gone look (S.scan s) p ops e in
      let after : (a : ℕ) (n : Bytes)
          → S.get_value s' (child_key a n)
            ≡ when_eq (bytes_ord.cmp (child_key a n) (child_key up name)) none
                (look (child_key a n)) =
        λ a n.
          subst
            (λ t. S.get_value t (child_key a n) ≡ effect (child_key a n) (look (child_key a n)) ops)
            (cc q)
            (S.get-view (S.commit s ops) (child_key a n)
              ∙ ap (get (child_key a n)) (S.view-commit s ops)
              ∙ get-apply_ops (child_key a n) (S.view s) ops sorted
              ∙ ap (λ o. effect (child_key a n) o ops) (sym (S.get-view s (child_key a n))))
          ∙ ap (effect (child_key a n) (look (child_key a n))) removed
          ∙ gone-child id up name type_name a n (look (child_key a n)) in
      let keeps : (a : ℕ) (n : Bytes)
          → (S.get_value s' (child_key a n) ≡ look (child_key a n))
            ⊎ (S.get_value s' (child_key a n) ≡ none) =
        λ a n. elim (kept_or_none (child_key a n) (child_key up name) (look (child_key a n))) [
          | inl same ↦ inl (after a n ∙ same)
          | inr lost ↦ inr (after a n ∙ lost)
        ] in
      let lost = after up name ∙ at_same (child_key up name) none (look (child_key up name)) in
      rw
        (lost-resolve_with (S.get_value s') p r (
          ap (walk (S.get_value s') p root_id) parts
          ∙ walk-lost look (S.get_value s') above p root_id up segs name keeps lost w))
        refl
