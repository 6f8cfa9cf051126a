-- ===== src/Query/Eval.antt =====
-- The evaluation of an expression at an entry, and the choice of the candidates
-- (crates/alefs-query/src/eval.rs).
pub mod Index
use alefsdb.Prelude.{
  ◌==◌, ℕ, zero, suc, ◌+◌, ◌*◌, ◌^◌, Bool, true, false, not, ◌&&◌, ◌||◌, Option, none, some, List,
  [], ◌∷◌, Result, ok, err, ◌>>=◌, leb, ltb, if◌then◌else◌, length, map, Ordering,
}
use Prim.Native.Nat.Ordering.{lt, eq, gt}
use Prim.Native.Nat.{◌-◌}
use alefsdb.Prelude.Order.{ℤ, pos, negsuc, nat_ord, list_ord, cmp_ℤ}
use alefsdb.Prelude.OrdMap.{OrdMap, get}
use alefsdb.Bytes.{Bytes, text, same}
use alefsdb.Types.Value.{
  Scalar, null, bool, int, float, string, bytes, Value, scalar, hash, set, list, tree, Items,
  Fields, Entries, no_items, item, no_fields, field, no_entries, entry, items, fields, entries,
  typename,
}
use alefsdb.Types.Value.Order.{cmp_scalar, scalar_ord}
use alefsdb.Types.DbPath.{DbPath, as_str, last_segment}
use alefsdb.Storage.Memory.{Storage}
use alefsdb.Namespace.Errors.{NsError}
use alefsdb.Namespace.Database.{
  EntryKind, directory, value_entry, Entry, paths_with_type, get_entry,
}
use alefsdb.Query.Ast.{
  CmpOp, eq_op, ne_op, lt_op, le_op, gt_op, ge_op, Predicate, path_glob, type_name, name_glob,
  has_key, value_cmp, key_cmp, contains, at_index, size_cmp, Expr, and_expr, or_expr, not_expr,
  pred, QueryHit,
}
use alefsdb.Query.Glob.{glob_match, path_glob_match}
use alefsdb.Query.Predicates.{eval_pred}

unfoldable pub eval_expr : Expr → DbPath → EntryKind → Option Value → Bool
eval_expr (and_expr a b) p kind v = eval_expr a p kind v && eval_expr b p kind v
eval_expr (or_expr a b) p kind v = eval_expr a p kind v || eval_expr b p kind v
eval_expr (not_expr a) p kind v = not (eval_expr a p kind v)
eval_expr (pred q) p kind v = eval_pred q p kind v

-- The match on the types of the two sides of an `and`.
unfoldable pub common_type : Option Bytes → Option Bytes → Option Bytes
common_type (some t) none = some t
common_type none (some t) = some t
common_type (some t) (some u) = if same t u then some t else none
common_type none none = none

unfoldable pub required_concrete_type : Expr → Option Bytes
required_concrete_type (pred (type_name t)) = if same t (text "scalar") then none else some t
required_concrete_type (and_expr a b) =
    common_type (required_concrete_type a) (required_concrete_type b)
required_concrete_type e = none

-- The name of a hit's type.
unfoldable pub hit_type : EntryKind → Option Value → Bytes
hit_type directory v = text "directory"
hit_type value_entry (some v) = typename v
hit_type value_entry none = text "value"

-- The loop of `execute` over the candidates.
unfoldable pub hits : Expr → List Entry → List QueryHit
hits e [] = []
hits e (c ∷ candidates) =
    let rest = hits e candidates in
    if eval_expr e c.path c.kind c.value
    then record { path = c.path; type_name = hit_type c.kind c.value } ∷ rest
    else rest

module _ (S : Storage) where
  unfoldable pub get_entries : S.Store → List DbPath → Result NsError (List Entry)
  get_entries s [] = ok []
  get_entries s (p ∷ ps) = get_entry S s p >>= λ e. get_entries s ps >>= λ rest. ok (e ∷ rest)

  -- The candidates of a type from its index.
  unfoldable pub indexed_candidates : S.Store → Bytes → Result NsError (List Entry)
  indexed_candidates s ty = paths_with_type S s ty >>= get_entries s
