-- ===== src/Prelude/Order.antt =====
-- Three-way comparison: Rust's `Ord`, for numbers, signed numbers and slices.
use Prim.Native.Nat.{ℕ, compare, Ordering}
use Prim.Native.Nat.Ordering.{lt, eq, gt}
use mathlib.Core.Path.{◌≡◌, refl}
use mathlib.Core.List.{List, [], ◌∷◌}
use native.Mathlib.Omega.{arith}

-- What a map that keeps its keys in order relies on.
pub record Ord {ℓ} (A : Type ℓ) : Type ℓ where
  pub cmp : A → A → Ordering
  pub cmp_refl : (a : A) → cmp a a ≡ eq
  pub eq_of_cmp : (a b : A) → cmp a b ≡ eq → a ≡ b
  pub gt_of_lt : (a b : A) → cmp a b ≡ lt → cmp b a ≡ gt
  pub lt_of_gt : (a b : A) → cmp a b ≡ gt → cmp b a ≡ lt
  pub lt_trans : (a b c : A) → cmp a b ≡ lt → cmp b c ≡ lt → cmp a c ≡ lt

pub compare_refl : (a : ℕ) → compare a a ≡ eq
compare_refl a = ground arith

pub compare-eq : (a b : ℕ) → compare a b ≡ eq → a ≡ b
compare-eq a b h = ground arith

pub compare-gt_of_lt : (a b : ℕ) → compare a b ≡ lt → compare b a ≡ gt
compare-gt_of_lt a b h = ground arith

pub compare-lt_of_gt : (a b : ℕ) → compare a b ≡ gt → compare b a ≡ lt
compare-lt_of_gt a b h = ground arith

pub compare-lt_trans : (a b c : ℕ) → compare a b ≡ lt → compare b c ≡ lt → compare a c ≡ lt
compare-lt_trans a b c h k = ground arith

instance abbrev pub nat_ord : Ord ℕ
nat_ord = record {
  cmp = compare;
  cmp_refl = compare_refl;
  eq_of_cmp = compare-eq;
  gt_of_lt = compare-gt_of_lt;
  lt_of_gt = compare-lt_of_gt;
  lt_trans = compare-lt_trans;
}

-- The first difference decides: `Ordering::then`.
abbrev pub and_then : Ordering → Ordering → Ordering
and_then lt o = lt
and_then eq o = o
and_then gt o = gt

-- The order of slices is lexicographic, a prefix first.
unfoldable pub cmp_list {ℓ} : {A : Type ℓ} → (A → A → Ordering) → List A → List A → Ordering
cmp_list f [] [] = eq
cmp_list f [] (y ∷ ys) = lt
cmp_list f (x ∷ xs) [] = gt
cmp_list f (x ∷ xs) (y ∷ ys) = and_then (f x y) (cmp_list f xs ys)

module _ {ℓ} {A : Type ℓ} (o : Ord A) where
  pub cmp_list_refl : (xs : List A) → cmp_list o.cmp xs xs ≡ eq
  unfolding cmp_list
  cmp_list_refl [] = refl
  cmp_list_refl (x ∷ xs) = ground (arith, o.cmp_refl x, cmp_list_refl xs)

  pub cmp_list-eq : (xs ys : List A) → cmp_list o.cmp xs ys ≡ eq → xs ≡ ys
  unfolding cmp_list
  cmp_list-eq [] [] h = refl
  cmp_list-eq [] (y ∷ ys) h = cc
  cmp_list-eq (x ∷ xs) [] h = cc
  cmp_list-eq (x ∷ xs) (y ∷ ys) h = ground (arith, o.eq_of_cmp x y, cmp_list-eq xs ys)

  pub cmp_list-gt_of_lt : (xs ys : List A) → cmp_list o.cmp xs ys ≡ lt → cmp_list o.cmp ys xs ≡ gt
  unfolding cmp_list
  cmp_list-gt_of_lt [] [] h = cc
  cmp_list-gt_of_lt [] (y ∷ ys) h = refl
  cmp_list-gt_of_lt (x ∷ xs) [] h = cc
  cmp_list-gt_of_lt (x ∷ xs) (y ∷ ys) h =
      ground (arith, o.eq_of_cmp x y, o.cmp_refl x, o.gt_of_lt x y, cmp_list-gt_of_lt xs ys)

  pub cmp_list-lt_of_gt : (xs ys : List A) → cmp_list o.cmp xs ys ≡ gt → cmp_list o.cmp ys xs ≡ lt
  unfolding cmp_list
  cmp_list-lt_of_gt [] [] h = cc
  cmp_list-lt_of_gt [] (y ∷ ys) h = cc
  cmp_list-lt_of_gt (x ∷ xs) [] h = refl
  cmp_list-lt_of_gt (x ∷ xs) (y ∷ ys) h =
      ground (arith, o.eq_of_cmp x y, o.cmp_refl x, o.lt_of_gt x y, cmp_list-lt_of_gt xs ys)

  pub cmp_list-lt_trans :
      (xs ys zs : List A)
      → cmp_list o.cmp xs ys ≡ lt
      → cmp_list o.cmp ys zs ≡ lt
      → cmp_list o.cmp xs zs ≡ lt
  unfolding cmp_list
  cmp_list-lt_trans [] [] zs h k = cc
  cmp_list-lt_trans [] (y ∷ ys) [] h k = cc
  cmp_list-lt_trans [] (y ∷ ys) (z ∷ zs) h k = refl
  cmp_list-lt_trans (x ∷ xs) [] zs h k = cc
  cmp_list-lt_trans (x ∷ xs) (y ∷ ys) [] h k = cc
  cmp_list-lt_trans (x ∷ xs) (y ∷ ys) (z ∷ zs) h k =
      ground (arith, o.eq_of_cmp x y, o.eq_of_cmp y z, o.lt_trans x y z, cmp_list-lt_trans xs ys zs)

instance abbrev pub list_ord {ℓ} : {A : Type ℓ} ⦃o : Ord A⦄ → Ord (List A)
list_ord ⦃o⦄ = record {
  cmp = cmp_list o.cmp;
  cmp_refl = cmp_list_refl o;
  eq_of_cmp = cmp_list-eq o;
  gt_of_lt = cmp_list-gt_of_lt o;
  lt_of_gt = cmp_list-lt_of_gt o;
  lt_trans = cmp_list-lt_trans o;
}

-- A signed integer: `negsuc n` is -(n + 1).
pub data ℤ : Type 0 where
  pos : ℕ → ℤ
  negsuc : ℕ → ℤ

abbrev pub cmp_ℤ : ℤ → ℤ → Ordering
cmp_ℤ (pos a) (pos b) = compare a b
cmp_ℤ (pos a) (negsuc b) = gt
cmp_ℤ (negsuc a) (pos b) = lt
cmp_ℤ (negsuc a) (negsuc b) = compare b a

pub cmp_ℤ_refl : (a : ℤ) → cmp_ℤ a a ≡ eq
cmp_ℤ_refl a = ground arith

pub cmp_ℤ-eq : (a b : ℤ) → cmp_ℤ a b ≡ eq → a ≡ b
cmp_ℤ-eq a b h = ground arith

pub cmp_ℤ-gt_of_lt : (a b : ℤ) → cmp_ℤ a b ≡ lt → cmp_ℤ b a ≡ gt
cmp_ℤ-gt_of_lt a b h = ground arith

pub cmp_ℤ-lt_of_gt : (a b : ℤ) → cmp_ℤ a b ≡ gt → cmp_ℤ b a ≡ lt
cmp_ℤ-lt_of_gt a b h = ground arith

pub cmp_ℤ-lt_trans : (a b c : ℤ) → cmp_ℤ a b ≡ lt → cmp_ℤ b c ≡ lt → cmp_ℤ a c ≡ lt
cmp_ℤ-lt_trans a b c h k = ground arith

instance abbrev pub int_ord : Ord ℤ
int_ord = record {
  cmp = cmp_ℤ;
  cmp_refl = cmp_ℤ_refl;
  eq_of_cmp = cmp_ℤ-eq;
  gt_of_lt = cmp_ℤ-gt_of_lt;
  lt_of_gt = cmp_ℤ-lt_of_gt;
  lt_trans = cmp_ℤ-lt_trans;
}
