-- ===== src/Server/Action.antt =====
-- What a closure of `with_db_mut` (crates/alefs-server/src/handle.rs) does: it changes the database in
-- place and returns or fails. What it has changed before it fails stays.
use alefsdb.Prelude.{◌≡◌, refl, ap, Result, ok, err, map_err}
use alefsdb.Namespace.Errors.{NsError}
use alefsdb.Server.Protocol.{Failure, namespace}

abbrev pub Action : Type 0 → Type 0 → Type 0
Action S A = S → S × Result Failure A

abbrev pub ns {ℓ} : {A : Type ℓ} → Result NsError A → Result Failure A
ns r = map_err (λ e. namespace e) r

module _ {S : Type 0} where
  abbrev pub pure : {A : Type 0} → A → Action S A
  pure a s = (s, ok a)

  -- A test that does not use the database, with `?`.
  abbrev pub lift : {A : Type 0} → Result Failure A → Action S A
  lift r s = (s, r)

  infixl 5 ◌>>=◌ ◌>>◌
  abbrev pub ◌>>=◌ : {A B : Type 0} → Action S A → (A → Action S B) → Action S B
  ◌>>=◌ m f s = let (t, r) = m s in elim r [ ok a ↦ f a t | err e ↦ (t, err e) ]

  abbrev pub ◌>>◌ : {A B : Type 0} → Action S A → Action S B → Action S B
  m >> k = m >>= λ u. k

  -- A method that takes `&mut self`, with `.map_err(ns)?`.
  abbrev pub method : {A : Type 0} → (S → S × Result NsError A) → Action S A
  method m s = let (t, r) = m s in (t, ns r)

  -- The database that a method leaves whose commit comes last.
  abbrev pub in_place : S → Result NsError S → S × Result NsError (Unit {0})
  in_place s (ok t) = (t, ok tt)
  in_place s (err e) = (s, err e)

  abbrev pub update : (S → Result NsError S) → Action S (Unit {0})
  update op = method (λ s. in_place s (op s))

  -- A run that returns has returned from each part.
  pub lift-ok :
      {A B : Type 0} (r : Result Failure A) (k : A → Action S B) (s t : S) (b : B)
      → (lift r >>= k) s ≡ (t, ok b)
      → (a : A) × (r ≡ ok a) × (k a s ≡ (t, ok b))
  lift-ok (ok a) k s t b h = (a, refl, h)
  lift-ok (err e) k s t b h = cc

  pub update-eq-ok :
      {B : Type 0} (op : S → Result NsError S) (k : Unit {0} → Action S B) (s u : S)
      → op s ≡ ok u
      → (update op >>= k) s ≡ k tt u
  update-eq-ok op k s u h = ap (λ r. (method (λ x. in_place s r) >>= k) s) h

  pub update-ok :
      {B : Type 0} (op : S → Result NsError S) (k : Unit {0} → Action S B) (s t : S) (b : B)
      → (update op >>= k) s ≡ (t, ok b)
      → (u : S) × (op s ≡ ok u) × (k tt u ≡ (t, ok b))
  update-ok op k s t b h = go (op s) refl h
    where
      go :
          (r : Result NsError S)
          → op s ≡ r
          → (method (λ x. in_place s r) >>= k) s ≡ (t, ok b)
          → (u : S) × (op s ≡ ok u) × (k tt u ≡ (t, ok b))
      go (ok u) e i = (u, e, i)
      go (err x) e i = cc
