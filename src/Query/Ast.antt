-- ===== src/Query/Ast.antt =====
-- The expressions of a query (crates/alefs-query/src/ast.rs).
use alefsdb.Prelude.{ℕ}
use alefsdb.Prelude.Order.{ℤ}
use alefsdb.Bytes.{Bytes}
use alefsdb.Types.Value.{Scalar, Value}
use alefsdb.Types.DbPath.{DbPath}

pub data CmpOp : Type 0 where
  eq_op ne_op lt_op le_op gt_op ge_op : CmpOp

pub data Predicate : Type 0 where
  path_glob type_name name_glob has_key : Bytes → Predicate
  value_cmp key_cmp : CmpOp → Scalar → Predicate
  contains : Value → Predicate
  at_index : ℕ → CmpOp → Scalar → Predicate
  size_cmp : CmpOp → ℤ → Predicate

pub data Expr : Type 0 where
  and_expr or_expr : Expr → Expr → Expr
  not_expr : Expr → Expr
  pred : Predicate → Expr

pub record QueryHit : Type 0 where
  pub path : DbPath
  pub type_name : Bytes
