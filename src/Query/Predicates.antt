-- ===== src/Query/Predicates.antt =====
-- The predicates of an expression (`eval_pred` of crates/alefs-query/src/eval.rs), an arm of the
-- source's match by a function where it has cases of its own.
use alefsdb.Prelude.{
  ℕ, zero, suc, Bool, true, false, ◌&&◌, ◌||◌, Option, none, some, List, [], ◌∷◌, if◌then◌else◌,
  length, Ordering,
}
use Prim.Native.Nat.Ordering.{lt, eq, gt}
use alefsdb.Prelude.Order.{ℤ, pos, nat_ord, list_ord, cmp_ℤ}
use alefsdb.Prelude.OrdMap.{OrdMap, get}
use alefsdb.Bytes.{Bytes, text, same}
use alefsdb.Bytes.Decimal.{parse_i64}
use alefsdb.Types.Value.{
  Scalar, int, string, bytes, Value, scalar, hash, set, list, tree, Items, Fields, Entries,
  no_items, item, no_fields, field, no_entries, entry, items, fields, entries, typename,
}
use alefsdb.Types.Value.Order.{cmp_scalar, scalar_ord}
use alefsdb.Types.DbPath.{DbPath, as_str, last_segment}
use alefsdb.Namespace.Database.{EntryKind, directory, value_entry}
use alefsdb.Query.Ast.{
  CmpOp, eq_op, ne_op, lt_op, le_op, gt_op, ge_op, Predicate, path_glob, type_name, name_glob,
  has_key, value_cmp, key_cmp, contains, at_index, size_cmp,
}
use alefsdb.Query.Glob.{glob_match, path_glob_match}

-- The operators on an order; `==` of the source's types agrees with it.
abbrev pub holds : CmpOp → Ordering → Bool
holds eq_op eq = true
holds eq_op o = false
holds ne_op eq = false
holds ne_op o = true
holds lt_op lt = true
holds lt_op o = false
holds le_op gt = false
holds le_op o = true
holds gt_op gt = true
holds gt_op o = false
holds ge_op lt = false
holds ge_op o = true

unfoldable pub compare_scalar : CmpOp → Scalar → Scalar → Bool
compare_scalar op a b = holds op (cmp_scalar a b)

unfoldable pub cmp_i64 : CmpOp → ℤ → ℤ → Bool
cmp_i64 op a b = holds op (cmp_ℤ a b)

-- The derived equality of values.
unfoldable mutual
  pub same_value : Value → Value → Bool
  same_value (scalar a) (scalar b) = holds eq_op (cmp_scalar a b)
  same_value (hash a) (hash b) = same_fields a b
  same_value (set a) (set b) = same_items a b
  same_value (list a) (list b) = same_items a b
  same_value (tree a) (tree b) = same_entries a b
  same_value a b = false

  pub same_items : Items → Items → Bool
  same_items no_items no_items = true
  same_items (item v a) (item w b) = same_value v w && same_items a b
  same_items a b = false

  pub same_fields : Fields → Fields → Bool
  same_fields no_fields no_fields = true
  same_fields (field k v a) (field j w b) = same k j && same_value v w && same_fields a b
  same_fields a b = false

  pub same_entries : Entries → Entries → Bool
  same_entries no_entries no_entries = true
  same_entries (entry k v a) (entry j w b) =
      holds eq_op (cmp_scalar k j) && same_value v w && same_entries a b
  same_entries a b = false

abbrev pub any {ℓ} : {A : Type ℓ} → (A → Bool) → List A → Bool
any test [] = false
any test (x ∷ xs) = test x || any test xs

abbrev pub is_some {ℓ} : {A : Type ℓ} → Option A → Bool
is_some none = false
is_some (some a) = true

unfoldable pub has_int_key : Option ℤ → OrdMap Scalar Value → Bool
has_int_key none m = false
has_int_key (some n) m = is_some (get (int n) m)

-- The arms of `eval_pred`, each on the entry's value.
unfoldable pub eval_has_key : Bytes → Option Value → Bool
eval_has_key k (some (hash m)) = is_some (get k (fields m))
eval_has_key k (some (tree m)) =
    is_some (get (string k) (entries m)) || has_int_key (parse_i64 k) (entries m)
eval_has_key k v = false

unfoldable pub eval_contains : Value → Option Value → Bool
eval_contains needle (some (set m)) = any (λ v. same_value v needle) (items m)
eval_contains needle (some (list m)) = any (λ v. same_value v needle) (items m)
eval_contains needle (some (hash m)) = any (λ row. same_value row.1 needle) (fields m)
eval_contains needle (some (tree m)) = any (λ row. same_value row.1 needle) (entries m)
eval_contains needle v = false

unfoldable pub eval_value_cmp : CmpOp → Scalar → Option Value → Bool
eval_value_cmp op s (some (scalar v)) = compare_scalar op v s
eval_value_cmp op s v = false

abbrev pub nth {ℓ} : {A : Type ℓ} → List A → ℕ → Option A
nth [] i = none
nth (x ∷ xs) zero = some x
nth (x ∷ xs) (suc i) = nth xs i

unfoldable pub eval_at_index : ℕ → CmpOp → Scalar → Option Value → Bool
eval_at_index i op s (some (list m)) = eval_value_cmp op s (nth (items m) i)
eval_at_index i op s v = false

unfoldable pub eval_key_cmp : CmpOp → Scalar → Option Value → Bool
eval_key_cmp op s (some (tree m)) = any (λ row. compare_scalar op row.0 s) (entries m)
eval_key_cmp op s v = false

-- The size of a value that has one.
unfoldable pub size_of : Value → Option ℕ
size_of (hash m) = some (length (fields m))
size_of (set m) = some (length (items m))
size_of (list m) = some (length (items m))
size_of (tree m) = some (length (entries m))
size_of (scalar (string s)) = some (length s)
size_of (scalar (bytes b)) = some (length b)
size_of v = none

unfoldable pub cmp_size : CmpOp → ℤ → Option ℕ → Bool
cmp_size op n none = false
cmp_size op n (some size) = cmp_i64 op (pos size) n

unfoldable pub eval_size_cmp : CmpOp → ℤ → EntryKind → Option Value → Bool
eval_size_cmp op n value_entry (some v) = cmp_size op n (size_of v)
eval_size_cmp op n kind v = false

abbrev pub is_scalar : Value → Bool
is_scalar (scalar s) = true
is_scalar v = false

unfoldable pub type_matches : Bytes → Value → Bool
type_matches t v = if same t (text "scalar") then is_scalar v else same (typename v) t

-- A directory has no value, and `get` gives every other entry one.
unfoldable pub eval_type_name : Bytes → EntryKind → Option Value → Bool
eval_type_name t directory none =
    if same t (text "scalar") then false else same (text "directory") t
eval_type_name t directory (some v) =
    if same t (text "scalar") then is_scalar v else same (text "directory") t
eval_type_name t value_entry (some v) = type_matches t v
eval_type_name t value_entry none = if same t (text "scalar") then false else same (text "value") t

abbrev pub or_empty : Option Bytes → Bytes
or_empty none = []
or_empty (some s) = s

unfoldable pub eval_pred : Predicate → DbPath → EntryKind → Option Value → Bool
eval_pred (path_glob g) p kind v = path_glob_match g (as_str p)
eval_pred (name_glob g) p kind v = glob_match g (or_empty (last_segment p.segments))
eval_pred (type_name t) p kind v = eval_type_name t kind v
eval_pred (value_cmp op s) p kind v = eval_value_cmp op s v
eval_pred (has_key k) p kind v = eval_has_key k v
eval_pred (contains needle) p kind v = eval_contains needle v
eval_pred (at_index i op s) p kind v = eval_at_index i op s v
eval_pred (key_cmp op s) p kind v = eval_key_cmp op s v
eval_pred (size_cmp op n) p kind v = eval_size_cmp op n kind v
