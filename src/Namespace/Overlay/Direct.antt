-- ===== src/Namespace/Overlay/Direct.antt =====
-- A transaction against its operations one by one, each with its own commit.
use alefsdb.Prelude.{◌≡◌, refl, ap, ◌∙◌, sym, subst, [], List, ◌∷◌, Result, ok, ◌>>=◌, >>=-eq-ok}
use alefsdb.Prelude.Order.{nat_ord, list_ord}
use alefsdb.Prelude.OrdMap.{Sorted}
use alefsdb.Storage.Batch.{apply_ops}
use alefsdb.Storage.Memory.{Storage}
use alefsdb.Namespace.Errors.{NsError}
use alefsdb.Namespace.Containers.{
  as_hash, as_list, as_set, as_tree, with_field, with_item, with_member, with_entry,
}
use alefsdb.Namespace.Database.{mkdir, set, delete, hash_set, list_push, set_add, tree_set}
use alefsdb.Namespace.Overlay.{
  Overlay, TxnOp, mkdir_op, set_op, delete_op, hash_set_op, list_push_op, set_add_op, tree_set_op,
  into_batch, commit_batch, apply_one, apply_each, apply_txn, batch_of,
}
use alefsdb.Namespace.Overlay.Commit.{Shows, start-Shows, view-commit_batch}
use alefsdb.Namespace.Overlay.Steps.{
  Follows, mkdir-Follows, set-Follows, delete-Follows, update-Follows,
}

module _ (S : Storage) where
  -- An operation of a transaction as the operation of `Database` of its name.
  unfoldable pub run_one : S.Store → TxnOp → Result NsError S.Store
  run_one s (mkdir_op p) = mkdir S s p
  run_one s (set_op p v) = set S s p v
  run_one s (delete_op p) = delete S s p
  run_one s (hash_set_op p k v) = hash_set S s p k v
  run_one s (list_push_op p v) = list_push S s p v
  run_one s (set_add_op p v) = set_add S s p v
  run_one s (tree_set_op p k v) = tree_set S s p k v

  unfoldable pub run_each : S.Store → List TxnOp → Result NsError S.Store
  run_each s [] = ok s
  run_each s (op ∷ ops) = run_one s op >>= λ s'. run_each s' ops

  one-Follows :
      (ov : Overlay S) (s s' : S.Store) (op : TxnOp)
      → Shows S ov s
      → run_one s op ≡ ok s'
      → Follows S ov (apply_one S ov op) s'
  unfolding run_one apply_one hash_set list_push set_add tree_set
  one-Follows ov s s' (mkdir_op p) h run = mkdir-Follows S ov s s' p h run
  one-Follows ov s s' (set_op p v) h run = set-Follows S ov s s' p v h run
  one-Follows ov s s' (delete_op p) h run = delete-Follows S ov s s' p h run
  one-Follows ov s s' (hash_set_op p k v) h run =
      update-Follows S ov s s' p (as_hash p) (with_field k v) h run
  one-Follows ov s s' (list_push_op p v) h run =
      update-Follows S ov s s' p (as_list p) (with_item v) h run
  one-Follows ov s s' (set_add_op p v) h run =
      update-Follows S ov s s' p (as_set p) (with_member v) h run
  one-Follows ov s s' (tree_set_op p k v) h run =
      update-Follows S ov s s' p (as_tree p) (with_entry k v) h run

  each-Follows :
      (ov : Overlay S) (s s' : S.Store) (ops : List TxnOp)
      → Shows S ov s
      → run_each s ops ≡ ok s'
      → Follows S ov (apply_each S ov ops) s'
  unfolding run_each apply_each
  each-Follows ov s s' [] h run = (ov, refl, subst (Shows S ov) (cc run) h, refl)
  each-Follows ov s s' (op ∷ ops) h run =
      let (t, e, rest) = >>=-eq-ok (run_one s op) (λ s'. run_each s' ops) run in
      let (ov1, e1, shows1, same1) = one-Follows ov s t op h e in
      let (ov2, e2, shows2, same2) = each-Follows ov1 t s' ops shows1 rest in
      (ov2, ap (λ r. r >>= λ ov'. apply_each S ov' ops) e1 ∙ e2, shows2, same2 ∙ same1)

  -- Operations that succeed one by one, each with its own commit, succeed as one transaction, and
  -- its single commit leaves the map that they leave, if the map was sorted.
  pub apply_txn-run_each :
      (s s' : S.Store) (ops : List TxnOp)
      → Sorted (S.view s)
      → run_each s ops ≡ ok s'
      → (t : S.Store) × (apply_txn S s ops ≡ ok t) × (S.view t ≡ S.view s')
  unfolding apply_txn
  apply_txn-run_each s s' [] h run = unfold run_each in (s, refl, ap S.view (cc run))
  apply_txn-run_each s s' (op ∷ ops) h run =
      let start : Overlay S = record { store = s; pending = [] } in
      let (ov, e, shows, same) = each-Follows start s s' (op ∷ ops) (start-Shows S s h) run in
      (
        commit_batch S s (into_batch S ov),
        ap (λ r. r >>= λ ov. ok (commit_batch S s (into_batch S ov))) e,
        unfold into_batch in
            (view-commit_batch S s (batch_of ov.pending)
              ∙ ap (λ u. apply_ops (S.view u) (batch_of ov.pending)) (sym same)
              ∙ sym shows.shows),
      )
