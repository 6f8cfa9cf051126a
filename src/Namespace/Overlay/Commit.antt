-- ===== src/Namespace/Overlay/Commit.antt =====
-- The overlay of a transaction against the store after the commit of its batch.
use alefsdb.Prelude.{◌≡◌, refl, ap, ◌∙◌, sym, [], ◌∷◌, Bool-cases, inl, inr}
use alefsdb.Prelude.Order.{nat_ord, list_ord}
use alefsdb.Prelude.OrdMap.{get, Sorted, eq_of_get}
use alefsdb.Bytes.{Bytes, starts_with}
use alefsdb.Storage.Batch.{WriteBatch, ByteMap, apply_ops}
use alefsdb.Storage.Batch.Scan.{scan_prefix, prefixed, scan_prefix-eq-prefixed}
use alefsdb.Storage.Batch.Replay.{effect, get-apply_ops, apply_ops-Sorted}
use alefsdb.Storage.Memory.{Storage}
use alefsdb.Namespace.Overlay.{
  Overlay, Pending, batch_of, pending_ops, collect, overlay_rows, shown, ov_get, ov_scan, ov_write,
  into_batch, commit_batch,
}
use alefsdb.Namespace.Overlay.Pending.{
  effect-batch_of, pending_ops-Sorted, shown-pending_ops, prefixed-Sorted, get-prefixed,
  collect-Sorted, overlay_rows-Sorted, get-overlay_rows,
}

scanned :
    (p : Bytes) (m : ByteMap) (pending : Pending)
    → Sorted m
    → Sorted pending
    → scan_prefix p (apply_ops m (batch_of pending))
      ≡ overlay_rows p (collect [] (scan_prefix p m)) pending
scanned p m pending s t =
    let after = apply_ops-Sorted m (batch_of pending) s in
    let rows = prefixed-Sorted p m s in
    rw
      (
        scan_prefix-eq-prefixed p m s,
        scan_prefix-eq-prefixed p (apply_ops m (batch_of pending)) after,
        collect-Sorted (prefixed p m) rows,
      )
      (eq_of_get (prefixed p (apply_ops m (batch_of pending)))
        (overlay_rows p (prefixed p m) pending)
        (prefixed-Sorted p (apply_ops m (batch_of pending)) after)
        (overlay_rows-Sorted p (prefixed p m) pending rows)
        λ j.
          rw
            (
              get-prefixed p j (apply_ops m (batch_of pending)),
              get-overlay_rows p j (prefixed p m) pending rows t,
              get-prefixed p j m,
              get-apply_ops j m (batch_of pending) s,
              effect-batch_of j (get j m) pending t,
            )
            (elim (Bool-cases (starts_with p j)) [ inl h ↦ rw h refl | inr h ↦ rw h refl ]))

module _ (S : Storage) where
  -- The store `s` shows the overlay: its map is that of the overlay's store after the batch.
  pub record Shows (ov : Overlay S) (s : S.Store) : Type 0 where
    pub below : Sorted (S.view ov.store)
    pub writes : Sorted ov.pending
    pub shows : S.view s ≡ apply_ops (S.view ov.store) (batch_of ov.pending)

  pub view-commit_batch :
      (s : S.Store) (b : WriteBatch) → S.view (commit_batch S s b) ≡ apply_ops (S.view s) b
  unfolding commit_batch apply_ops
  view-commit_batch s [] = refl
  view-commit_batch s (op ∷ ops) = S.view-commit s (op ∷ ops)

  -- A read of that store is a read through the overlay.
  pub get-Shows :
      (ov : Overlay S) (s : S.Store) → Shows ov s → (k : Bytes) → S.get_value s k ≡ ov_get S ov k
  unfolding ov_get
  get-Shows ov s h k =
      S.get-view s k
      ∙ ap (get k) h.shows
      ∙ get-apply_ops k (S.view ov.store) (batch_of ov.pending) h.below
      ∙ effect-batch_of k (get k (S.view ov.store)) ov.pending h.writes
      ∙ ap (shown (get k ov.pending)) (sym (S.get-view ov.store k))

  pub scan-Shows :
      (ov : Overlay S) (s : S.Store) → Shows ov s → (p : Bytes) → S.scan s p ≡ ov_scan S ov p
  unfolding ov_scan
  scan-Shows ov s h p =
      S.scan-view s p
      ∙ ap (scan_prefix p) h.shows
      ∙ scanned p (S.view ov.store) ov.pending h.below h.writes
      ∙ ap (λ rows. overlay_rows p (collect [] rows) ov.pending) (sym (S.scan-view ov.store p))

  -- Committing writes to that store and putting them into the overlay come to the same.
  pub write-Shows :
      (ov : Overlay S) (s : S.Store) (ops : WriteBatch)
      → Shows ov s
      → Shows (ov_write S ov ops) (S.commit s ops)
  unfolding ov_write
  write-Shows ov s ops h = record {
    below = h.below;
    writes = pending_ops-Sorted ov.pending ops h.writes;
    shows =
        let m = S.view ov.store in
        let base = apply_ops m (batch_of ov.pending) in
        let base-Sorted = apply_ops-Sorted m (batch_of ov.pending) h.below in
        let writes = pending_ops ov.pending ops in
        S.view-commit s ops
        ∙ ap (λ v. apply_ops v ops) h.shows
        ∙ eq_of_get (apply_ops base ops) (apply_ops m (batch_of writes))
            (apply_ops-Sorted base ops base-Sorted) (apply_ops-Sorted m (batch_of writes) h.below)
            λ j.
              get-apply_ops j base ops base-Sorted
              ∙ ap (λ o. effect j o ops)
                  (get-apply_ops j m (batch_of ov.pending) h.below
                    ∙ effect-batch_of j (get j m) ov.pending h.writes)
              ∙ sym (shown-pending_ops j (get j m) ov.pending ops)
              ∙ sym
                  (effect-batch_of j (get j m) writes (pending_ops-Sorted ov.pending ops h.writes))
              ∙ sym (get-apply_ops j m (batch_of writes) h.below);
  }

  -- The empty overlay over a store with a sorted map shows that store.
  pub start-Shows : (s : S.Store) → Sorted (S.view s) → Shows (record { store = s; pending = [] }) s
  start-Shows s h = record { below = h; writes = tt; shows = unfold batch_of apply_ops in refl }

  -- What a transaction has read through its overlay, a get of any key and a scan of any prefix, is
  -- what the store returns once its batch is committed, if the map was sorted and the pending
  -- writes are.
  pub into_batch-shows :
      (ov : Overlay S)
      → Sorted (S.view ov.store)
      → Sorted ov.pending
      → ((k : Bytes) → S.get_value (commit_batch S ov.store (into_batch S ov)) k ≡ ov_get S ov k)
        × ((p : Bytes) → S.scan (commit_batch S ov.store (into_batch S ov)) p ≡ ov_scan S ov p)
  unfolding into_batch
  into_batch-shows ov h w =
      let s = commit_batch S ov.store (batch_of ov.pending) in
      let shows : Shows ov s = record {
        below = h;
        writes = w;
        shows = view-commit_batch ov.store (batch_of ov.pending);
      } in
      (get-Shows ov s shows, scan-Shows ov s shows)
