-- ===== src/Prelude/OrdMap.antt =====
-- Rust's `BTreeMap`: the entries in the order of their keys, with `get`, `insert` and `remove`.
use Prim.Native.Nat.Ordering.{lt, eq, gt}
use Prim.Native.Nat.{Ordering}
use mathlib.Core.Path.{◌≡◌, refl, ap, sym, subst, subst₂}
use mathlib.Core.Option.{Option, none, some}
use mathlib.Core.Logic.{◌⊎◌, inl, inr}
use mathlib.Core.List.{List, [], ◌∷◌, ◌++◌}
use native.Mathlib.Omega.{arith}
use alefsdb.Prelude.Order.{Ord}

abbrev pub OrdMap {ℓ κ} : Type ℓ → Type κ → Type (ℓ ⊔ κ)
OrdMap K V = List (K × V)

pub Ordering-cases : (o : Ordering) → (o ≡ lt) ⊎ (o ≡ eq) ⊎ (o ≡ gt)
Ordering-cases lt = inl refl
Ordering-cases eq = inr (inl refl)
Ordering-cases gt = inr (inr refl)

-- `f` on equal keys, `g` otherwise.
abbrev pub when_eq {ℓ} : {A : Type ℓ} → Ordering → A → A → A
when_eq lt a b = b
when_eq eq a b = a
when_eq gt a b = b

module _ {ℓ κ} {K : Type ℓ} {V : Type κ} ⦃o : Ord K⦄ where
  unfoldable pub get : K → OrdMap K V → Option V
  get k [] = none
  get k ((j, v) ∷ m) = when_eq (o.cmp k j) (some v) (get k m)

  unfoldable pub insert : K → V → OrdMap K V → OrdMap K V
  insert k v [] = (k, v) ∷ []
  insert k v ((j, w) ∷ m) = elim (o.cmp k j) [
    | lt ↦ (k, v) ∷ (j, w) ∷ m
    | eq ↦ (j, v) ∷ m
    | gt ↦ (j, w) ∷ insert k v m
  ]

  unfoldable pub remove : K → OrdMap K V → OrdMap K V
  remove k [] = []
  remove k ((j, w) ∷ m) = when_eq (o.cmp k j) m ((j, w) ∷ remove k m)

  -- Every key of the map is above `k`.
  abbrev pub Above : K → OrdMap K V → Type ℓ
  Above k [] = Unit
  Above k ((j, w) ∷ m) = (o.cmp k j ≡ lt) × Above k m

  -- The keys ascend strictly.
  abbrev pub Sorted : OrdMap K V → Type ℓ
  Sorted [] = Unit
  Sorted ((j, w) ∷ m) = Above j m × Sorted m

  pub Above-trans : (k j : K) (m : OrdMap K V) → o.cmp k j ≡ lt → Above j m → Above k m
  Above-trans k j [] h a = tt
  Above-trans k j ((i, w) ∷ m) h a = (o.lt_trans k j i h a.0, Above-trans k j m h a.1)

  insert-Above :
      (i k : K) (v : V) (m : OrdMap K V) → o.cmp i k ≡ lt → Above i m → Above i (insert k v m)
  unfolding insert
  insert-Above i k v [] h a = (h, tt)
  insert-Above i k v ((j, w) ∷ m) h a = ground (arith, insert-Above i k v m h a.1)

  pub insert-Sorted : (k : K) (v : V) (m : OrdMap K V) → Sorted m → Sorted (insert k v m)
  unfolding insert
  insert-Sorted k v [] s = (tt, tt)
  insert-Sorted k v ((j, w) ∷ m) s =
      ground
        (arith, Above-trans k j m, insert-Above j k v m, insert-Sorted k v m s.1, o.lt_of_gt k j)

  remove-Above : (i k : K) (m : OrdMap K V) → Above i m → Above i (remove k m)
  unfolding remove
  remove-Above i k [] a = tt
  remove-Above i k ((j, w) ∷ m) a = ground (arith, remove-Above i k m a.1)

  pub remove-Sorted : (k : K) (m : OrdMap K V) → Sorted m → Sorted (remove k m)
  unfolding remove
  remove-Sorted k [] s = tt
  remove-Sorted k ((j, w) ∷ m) s = ground (arith, remove-Above j k m s.0, remove-Sorted k m s.1)

  pub get-Above : (k : K) (m : OrdMap K V) → Above k m → get k m ≡ none
  unfolding get
  get-Above k [] a = refl
  get-Above k ((j, w) ∷ m) a = ground (arith, get-Above k m a.1)

  pub get-insert :
      (j k : K) (v : V) (m : OrdMap K V)
      → get j (insert k v m) ≡ when_eq (o.cmp j k) (some v) (get j m)
  unfolding get insert
  get-insert j k v [] = refl
  get-insert j k v ((i, w) ∷ m) = ground (
    arith,
    get-insert j k v m,
    o.eq_of_cmp k i,
    o.eq_of_cmp j k,
    o.eq_of_cmp j i,
    o.cmp_refl i,
    o.cmp_refl j,
    o.cmp_refl k,
  )

  pub get-remove :
      (j k : K) (m : OrdMap K V)
      → Sorted m
      → get j (remove k m) ≡ when_eq (o.cmp j k) none (get j m)
  unfolding get remove
  get-remove j k [] s = ground arith
  get-remove j k ((i, w) ∷ m) s = ground (
    arith,
    get-remove j k m s.1,
    get-Above i m s.0,
    o.eq_of_cmp k i,
    o.eq_of_cmp j k,
    o.eq_of_cmp j i,
    o.cmp_refl j,
  )

  -- An entry that stands between two parts of a sorted map is inserted at the end of the first.
  pub insert-eq-append :
      (acc : OrdMap K V) (k : K) (v : V) (m : OrdMap K V)
      → Sorted (acc ++ (k, v) ∷ m)
      → insert k v acc ≡ acc ++ (k, v) ∷ []
  unfolding insert
  insert-eq-append [] k v m s = refl
  insert-eq-append ((j, w) ∷ acc) k v m s =
      rw (o.gt_of_lt j k (at_key acc s.0), insert)
        (ap (λ r. (j, w) ∷ r) (insert-eq-append acc k v m s.1))
    where
      at_key : (xs : OrdMap K V) → Above j (xs ++ (k, v) ∷ m) → o.cmp j k ≡ lt
      at_key [] a = a.0
      at_key (x ∷ xs) a = at_key xs a.1

  tails_agree :
      (j : K) (v : V) (m n : OrdMap K V)
      → Above j m
      → Above j n
      → ((k : K) → get k ((j, v) ∷ m) ≡ get k ((j, v) ∷ n))
      → (k : K) → get k m ≡ get k n
  unfolding get
  tails_agree j v m n a b h k = elim (Ordering-cases (o.cmp k j)) [
    | inl p ↦ ground (arith, h k)
    | inr (inl p) ↦ ground (arith, o.eq_of_cmp k j p, get-Above j m a, get-Above j n b)
    | inr (inr p) ↦ ground (arith, h k)
  ]

  get_head : (j : K) (v : V) (m : OrdMap K V) → get j ((j, v) ∷ m) ≡ some v
  unfolding get
  get_head j v m = rw (o.cmp_refl j)

  get_below :
      (j i : K) (w : V) (m : OrdMap K V) → o.cmp j i ≡ lt → Above i m → get j ((i, w) ∷ m) ≡ none
  get_below j i w m h a = get-Above j ((i, w) ∷ m) (h, Above-trans j i m h a)

  heads_agree :
      (j i : K) (v w : V) (m n : OrdMap K V)
      → Above j m
      → Above i n
      → ((k : K) → get k ((j, v) ∷ m) ≡ get k ((i, w) ∷ n))
      → (j ≡ i) × (v ≡ w)
  heads_agree j i v w m n a b h = elim (Ordering-cases (o.cmp j i)) [
    | inl p ↦ absurd (cc (h j, get_head j v m, get_below j i w n p b))
    | inr (inl p) ↦ let e = o.eq_of_cmp j i p in (e, cc (h j, get_head j v m, get_head i w n))
    | inr (inr p) ↦ absurd (cc (h i, get_head i w n, get_below i j v m (o.lt_of_gt j i p) a))
  ]

  -- Sorted maps with the same lookups are one list.
  pub eq_of_get : (m n : OrdMap K V) → Sorted m → Sorted n → ((k : K) → get k m ≡ get k n) → m ≡ n
  eq_of_get [] [] s t h = refl
  eq_of_get [] ((i, w) ∷ n) s t h = unfold get in absurd (cc (h i, o.cmp_refl i))
  eq_of_get ((j, v) ∷ m) [] s t h = unfold get in absurd (cc (h j, o.cmp_refl j))
  eq_of_get ((j, v) ∷ m) ((i, w) ∷ n) s t h =
      let e = heads_agree j i v w m n s.0 t.0 h in
      let a : Above j n = subst (λ x. Above x n) (sym e.0) t.0 in
      let rest =
        tails_agree j v m n s.0 a (λ k.
          subst₂ (λ x y. get k ((j, v) ∷ m) ≡ get k ((x, y) ∷ n)) (sym e.0) (sym e.1) (h k)) in
      cc (e.0, e.1, eq_of_get m n s.1 t.1 rest)
