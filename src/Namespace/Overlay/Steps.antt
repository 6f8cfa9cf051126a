-- ===== src/Namespace/Overlay/Steps.antt =====
-- Each operation of a transaction, from an overlay that a store shows, against the operation of
-- `Database` of its name.
use alefsdb.Prelude.{
  ℕ, ◌≡◌, refl, ap, ap₂, ◌∙◌, sym, Bool, true, false, some, subst, Result, ok, err, ◌>>=◌,
  >>=-eq-ok, if◌then◌else◌,
}
use mathlib.Core.Path.{fun_ext}
use alefsdb.Prelude.Order.{nat_ord, list_ord}
use alefsdb.Types.Value.{Value}
use alefsdb.Types.DbPath.{DbPath, is_root, as_str}
use alefsdb.Storage.Batch.{WriteBatch}
use alefsdb.Storage.Memory.{Storage}
use alefsdb.Namespace.Keys.{NodeRecord, dir, value}
use alefsdb.Namespace.Errors.{NsError, already_exists}
use alefsdb.Namespace.Resolve.{resolve_with, decode_node}
use alefsdb.Namespace.Ops.{mkdir_ops, set_ops, delete_ops}
use alefsdb.Namespace.Database.{
  resolve, exists, is_found, get_entry, entry_of, entry_value, value_entry, get_value_at, mkdir,
  set, delete,
}
use alefsdb.Namespace.Overlay.{
  Overlay, is_ok, value_of, ov_get, ov_scan, ov_write, resolve_ov, get_value_ov, mkdir_ov, set_ov,
  delete_ov,
}
use alefsdb.Namespace.Overlay.Commit.{Shows, get-Shows, scan-Shows, write-Shows}

-- Both ways to read a value, from a node that was found or from the error.
read_value-eq :
    (p : DbPath) (r : Result NsError (ℕ × NodeRecord))
    → (r >>= (λ found. entry_of p found.1)) >>= entry_value p ≡ r >>= value_of p
unfolding entry_of entry_value value_of
read_value-eq p (err e) = refl
read_value-eq p (ok (id, dir)) = refl
read_value-eq p (ok (id, value enc)) = go (decode_node enc)
  where
    go :
        (r : Result NsError Value)
        → (r >>= λ v. ok (record { path = p; kind = value_entry; value = some v }))
            >>= entry_value p
          ≡ r
    go (ok v) = refl
    go (err e) = refl

is_ok-of-missing : (r : Result NsError (ℕ × NodeRecord)) → is_found r ≡ ok false → is_ok r ≡ false
unfolding is_found is_ok
is_ok-of-missing (ok a) h = cc
is_ok-of-missing (err e) h = refl

module _ (S : Storage) where
  -- The overlay goes on as the store does, over the store below it, which it leaves alone.
  abbrev pub Follows : Overlay S → Result NsError (Overlay S) → S.Store → Type 0
  Follows ov r s' = (ov' : Overlay S) × (r ≡ ok ov') × Shows S ov' s' × (ov'.store ≡ ov.store)

  get_eq : (ov : Overlay S) (s : S.Store) → Shows S ov s → S.get_value s ≡ ov_get S ov
  get_eq ov s h = fun_ext (get-Shows S ov s h)

  resolve_eq :
      (ov : Overlay S) (s : S.Store) (p : DbPath) → Shows S ov s → resolve S s p ≡ resolve_ov S ov p
  unfolding resolve resolve_ov
  resolve_eq ov s p h = ap (λ look. resolve_with look p) (get_eq ov s h)

  read_eq :
      (ov : Overlay S) (s : S.Store) (p : DbPath)
      → Shows S ov s
      → get_value_at S s p ≡ get_value_ov S ov p
  unfolding get_value_at get_entry get_value_ov
  read_eq ov s p h =
      read_value-eq p (resolve S s p) ∙ ap (λ r. r >>= value_of p) (resolve_eq ov s p h)

  -- Writes that are computed from what is read.
  write-Follows :
      (ov : Overlay S) (s s' : S.Store) (r : Result NsError WriteBatch)
      → Shows S ov s
      → r >>= (λ ops. ok (S.commit s ops)) ≡ ok s'
      → Follows ov (r >>= λ ops. ok (ov_write S ov ops)) s'
  write-Follows ov s s' (err e) h run = absurd (cc run)
  write-Follows ov s s' (ok ops) h run =
      unfold ov_write in
      (
        ov_write S ov ops,
        refl,
        subst (Shows S (ov_write S ov ops)) (cc run) (write-Shows S ov s ops h),
        refl,
      )

  mkdir_cases :
      (ov : Overlay S) (s s' : S.Store) (p : DbPath) (b : Bool)
      (r : Result NsError (ℕ × NodeRecord)) (o : Result NsError WriteBatch)
      → Shows S ov s
      → (if b
          then ok s
          else (is_found r >>= λ there.
              if there
              then err (already_exists (as_str p))
              else (o >>= λ ops. ok (S.commit s ops))))
        ≡ ok s'
      → Follows ov
          (if b
            then ok ov
            else if is_ok r
            then err (already_exists (as_str p))
            else (o >>= λ ops. ok (ov_write S ov ops)))
          s'
  mkdir_cases ov s s' p true r o h run = (ov, refl, subst (Shows S ov) (cc run) h, refl)
  mkdir_cases ov s s' p false r o h run =
      let (there, e, rest) =
        >>=-eq-ok (is_found r)
          (λ there.
            if there then err (already_exists (as_str p)) else (o >>= λ ops. ok (S.commit s ops)))
          run in
      missing there e rest
    where
      missing :
          (there : Bool)
          → is_found r ≡ ok there
          → (if there then err (already_exists (as_str p)) else (o >>= λ ops. ok (S.commit s ops)))
            ≡ ok s'
          → Follows ov
              (if is_ok r
                then err (already_exists (as_str p))
                else (o >>= λ ops. ok (ov_write S ov ops)))
              s'
      missing true e rest = absurd (cc rest)
      missing false e rest = rw (is_ok-of-missing r e) (write-Follows ov s s' o h rest)

  pub mkdir-Follows :
      (ov : Overlay S) (s s' : S.Store) (p : DbPath)
      → Shows S ov s
      → mkdir S s p ≡ ok s'
      → Follows ov (mkdir_ov S ov p) s'
  unfolding mkdir mkdir_ov exists
  mkdir-Follows ov s s' p h run =
      mkdir_cases ov s s' p (is_root p) (resolve_ov S ov p) (mkdir_ops (ov_get S ov) p) h (
        ap₂
          (λ r look.
            if is_root p
            then ok s
            else (is_found r >>= λ there.
                if there
                then err (already_exists (as_str p))
                else (mkdir_ops look p >>= λ ops. ok (S.commit s ops))))
          (sym (resolve_eq ov s p h)) (sym (get_eq ov s h))
        ∙ run)

  pub set-Follows :
      (ov : Overlay S) (s s' : S.Store) (p : DbPath) (v : Value)
      → Shows S ov s
      → set S s p v ≡ ok s'
      → Follows ov (set_ov S ov p v) s'
  unfolding set set_ov
  set-Follows ov s s' p v h run =
      write-Follows ov s s' (set_ops (ov_get S ov) p v) h
        (ap (λ look. set_ops look p v >>= λ ops. ok (S.commit s ops)) (sym (get_eq ov s h)) ∙ run)

  pub delete-Follows :
      (ov : Overlay S) (s s' : S.Store) (p : DbPath)
      → Shows S ov s
      → delete S s p ≡ ok s'
      → Follows ov (delete_ov S ov p) s'
  unfolding delete delete_ov
  delete-Follows ov s s' p h run =
      write-Follows ov s s' (delete_ops (ov_get S ov) (ov_scan S ov) p) h (
        ap₂ (λ look scan. delete_ops look scan p >>= λ ops. ok (S.commit s ops))
          (sym (get_eq ov s h)) (sym (fun_ext (scan-Shows S ov s h)))
        ∙ run)

  -- An update inside a value: a container is read, and a value with the change is set.
  pub update-Follows :
      {C : Type 0} (ov : Overlay S) (s s' : S.Store) (p : DbPath)
      (as_container : Result NsError Value → Result NsError C) (change : C → Value)
      → Shows S ov s
      → as_container (get_value_at S s p) >>= (λ m. set S s p (change m)) ≡ ok s'
      → Follows ov (as_container (get_value_ov S ov p) >>= λ m. set_ov S ov p (change m)) s'
  update-Follows ov s s' p as_container change h run =
      let read = sym (ap as_container (read_eq ov s p h)) in
      let (m, e, rest) =
        >>=-eq-ok (as_container (get_value_ov S ov p)) (λ m. set S s p (change m))
          (ap (λ r. r >>= λ m. set S s p (change m)) read ∙ run) in
      let (ov', e', shows, same) = set-Follows ov s s' p (change m) h rest in
      (ov', ap (λ r. r >>= λ m. set_ov S ov p (change m)) e ∙ e', shows, same)
