-- ===== src/Types/Value/Order.antt =====
-- The derived order of scalars, and `BTreeMap::insert` for the two maps inside a value.
use Prim.Native.Nat.Ordering.{lt, eq, gt}
use Prim.Native.Nat.{Ordering}
use alefsdb.Prelude.{◌≡◌, refl, true, false, List, [], ◌∷◌, map, arith}
use alefsdb.Prelude.Order.{ℤ, pos, Ord, list_ord, int_ord, nat_ord}
use alefsdb.Bytes.{Bytes}
use alefsdb.Types.Value.{Scalar, null, bool, int, float, string, bytes}

-- A derived `Ord` compares the variants' places first and then the fields, a slice item by item:
-- the lexicographic order of this key.
unfoldable pub order_key : Scalar → List ℤ
order_key null = pos 0 ∷ []
order_key (bool false) = pos 1 ∷ pos 0 ∷ []
order_key (bool true) = pos 1 ∷ pos 1 ∷ []
order_key (int n) = pos 2 ∷ n ∷ []
order_key (float bits) = pos 3 ∷ pos bits ∷ []
order_key (string s) = pos 4 ∷ map pos s
order_key (bytes b) = pos 5 ∷ map pos b

map_pos_injective : (a b : Bytes) → map pos a ≡ map pos b → a ≡ b
map_pos_injective [] [] h = refl
map_pos_injective [] (y ∷ ys) h = cc
map_pos_injective (x ∷ xs) [] h = cc
map_pos_injective (x ∷ xs) (y ∷ ys) h = ground (arith, map_pos_injective xs ys)

order_key_injective : (a b : Scalar) → order_key a ≡ order_key b → a ≡ b
unfolding order_key
order_key_injective (string s) (string t) h = ground (arith, map_pos_injective s t)
order_key_injective (bytes s) (bytes t) h = ground (arith, map_pos_injective s t)
order_key_injective a b h = ground arith

unfoldable pub cmp_scalar : Scalar → Scalar → Ordering
unfolding order_key
cmp_scalar a b = list_ord.cmp (order_key a) (order_key b)

pub cmp_scalar_refl : (a : Scalar) → cmp_scalar a a ≡ eq
unfolding cmp_scalar
cmp_scalar_refl a = list_ord.cmp_refl (order_key a)

pub cmp_scalar-eq : (a b : Scalar) → cmp_scalar a b ≡ eq → a ≡ b
unfolding cmp_scalar
cmp_scalar-eq a b h = order_key_injective a b (list_ord.eq_of_cmp (order_key a) (order_key b) h)

pub cmp_scalar-gt_of_lt : (a b : Scalar) → cmp_scalar a b ≡ lt → cmp_scalar b a ≡ gt
unfolding cmp_scalar
cmp_scalar-gt_of_lt a b h = list_ord.gt_of_lt (order_key a) (order_key b) h

pub cmp_scalar-lt_of_gt : (a b : Scalar) → cmp_scalar a b ≡ gt → cmp_scalar b a ≡ lt
unfolding cmp_scalar
cmp_scalar-lt_of_gt a b h = list_ord.lt_of_gt (order_key a) (order_key b) h

pub cmp_scalar-lt_trans :
    (a b c : Scalar) → cmp_scalar a b ≡ lt → cmp_scalar b c ≡ lt → cmp_scalar a c ≡ lt
unfolding cmp_scalar
cmp_scalar-lt_trans a b c h k = list_ord.lt_trans (order_key a) (order_key b) (order_key c) h k

instance abbrev pub scalar_ord : Ord Scalar
scalar_ord = record {
  cmp = cmp_scalar;
  cmp_refl = cmp_scalar_refl;
  eq_of_cmp = cmp_scalar-eq;
  gt_of_lt = cmp_scalar-gt_of_lt;
  lt_of_gt = cmp_scalar-lt_of_gt;
  lt_trans = cmp_scalar-lt_trans;
}
