-- ===== src/Query/Parse/Print.antt =====
-- An independent printer of expressions, with the fewest parentheses.
use alefsdb.Prelude.{String, true, false, List, ◌∷◌}
use alefsdb.Prelude.Order.{pos}
use alefsdb.Bytes.{Bytes, text}
use alefsdb.Bytes.Decimal.{IsI64}
use alefsdb.Types.Value.{
  Scalar, null, bool, int, float, string, bytes, Value, scalar, hash, set, list, tree,
}
use alefsdb.Query.Ast.{
  CmpOp, eq_op, ne_op, lt_op, le_op, gt_op, ge_op, Predicate, path_glob, type_name, name_glob,
  has_key, value_cmp, key_cmp, contains, at_index, size_cmp, Expr, and_expr, or_expr, not_expr,
  pred,
}
use alefsdb.Query.Parse.Tokens.{Tok, ident, string_tok, op, int_tok, float_tok, lparen, rparen}

unfoldable pub word : String → Tok
word s = ident (text s)

abbrev pub cmp_text : CmpOp → Bytes
cmp_text eq_op = text "="
cmp_text ne_op = text "!="
cmp_text lt_op = text "<"
cmp_text le_op = text "<="
cmp_text gt_op = text ">"
cmp_text ge_op = text ">="

abbrev pub put_scalar : Scalar → Tok
put_scalar null = word "null"
put_scalar (bool true) = word "true"
put_scalar (bool false) = word "false"
put_scalar (int n) = int_tok n
put_scalar (float f) = float_tok f
put_scalar (string s) = string_tok s
put_scalar (bytes s) = string_tok s

-- Containers have no text; the token stands for none.
abbrev pub put_value : Value → Tok
put_value (scalar s) = put_scalar s
put_value (hash m) = lparen
put_value (set xs) = lparen
put_value (list xs) = lparen
put_value (tree m) = lparen

abbrev pub predicate_name : Predicate → String
predicate_name (path_glob g) = "path"
predicate_name (type_name t) = "type"
predicate_name (name_glob g) = "name"
predicate_name (has_key s) = "has"
predicate_name (value_cmp o s) = "value"
predicate_name (key_cmp o s) = "key"
predicate_name (contains v) = "contains"
predicate_name (at_index i o s) = "at"
predicate_name (size_cmp o n) = "size"

abbrev pub put_arguments : Predicate → List Tok → List Tok
put_arguments (path_glob g) k = string_tok g ∷ k
put_arguments (type_name t) k = string_tok t ∷ k
put_arguments (name_glob g) k = string_tok g ∷ k
put_arguments (has_key s) k = string_tok s ∷ k
put_arguments (value_cmp o s) k = op (cmp_text o) ∷ put_scalar s ∷ k
put_arguments (key_cmp o s) k = op (cmp_text o) ∷ put_scalar s ∷ k
put_arguments (contains v) k = put_value v ∷ k
put_arguments (at_index i o s) k = int_tok (pos i) ∷ op (cmp_text o) ∷ put_scalar s ∷ k
put_arguments (size_cmp o n) k = op (cmp_text o) ∷ int_tok n ∷ k

-- The tokens of a predicate in front of `k`.
abbrev pub put_predicate : Predicate → List Tok → List Tok
put_predicate p k = word (predicate_name p) ∷ put_arguments p k

-- Where an expression stands: alone or to the left of a joint, behind a joint, behind a `NOT`.
pub data Place : Type 0 where
  whole operand negand : Place

abbrev pub parens : (List Tok → List Tok) → List Tok → List Tok
parens body k = lparen ∷ body (rparen ∷ k)

-- The tokens of an expression in front of `k`. Joints are read from the left, with one
-- precedence.
unfoldable pub put : Place → Expr → List Tok → List Tok
put p (pred q) k = put_predicate q k
put whole (not_expr e) k = word "NOT" ∷ put negand e k
put operand (not_expr e) k = word "NOT" ∷ put negand e k
put negand (not_expr e) k = parens (λ r. word "NOT" ∷ put negand e r) k
put whole (and_expr a b) k = put whole a (word "AND" ∷ put operand b k)
put operand (and_expr a b) k = parens (λ r. put whole a (word "AND" ∷ put operand b r)) k
put negand (and_expr a b) k = parens (λ r. put whole a (word "AND" ∷ put operand b r)) k
put whole (or_expr a b) k = put whole a (word "OR" ∷ put operand b k)
put operand (or_expr a b) k = parens (λ r. put whole a (word "OR" ∷ put operand b r)) k
put negand (or_expr a b) k = parens (λ r. put whole a (word "OR" ∷ put operand b r)) k

-- A scalar with a text that is read back: no byte string and no float.
abbrev pub IsWritable : Scalar → Type 0
IsWritable null = Unit {0}
IsWritable (bool b) = Unit {0}
IsWritable (int n) = IsI64 n
IsWritable (float f) = ⊥
IsWritable (string s) = Unit {0}
IsWritable (bytes s) = ⊥

abbrev pub IsWritableValue : Value → Type 0
IsWritableValue (scalar s) = IsWritable s
IsWritableValue (hash m) = ⊥
IsWritableValue (set xs) = ⊥
IsWritableValue (list xs) = ⊥
IsWritableValue (tree m) = ⊥

abbrev pub IsPrintablePredicate : Predicate → Type 0
IsPrintablePredicate (path_glob g) = Unit {0}
IsPrintablePredicate (type_name t) = Unit {0}
IsPrintablePredicate (name_glob g) = Unit {0}
IsPrintablePredicate (has_key s) = Unit {0}
IsPrintablePredicate (value_cmp o s) = IsWritable s
IsPrintablePredicate (key_cmp o s) = IsWritable s
IsPrintablePredicate (contains v) = IsWritableValue v
IsPrintablePredicate (at_index i o s) = IsI64 (pos i) × IsWritable s
IsPrintablePredicate (size_cmp o n) = IsI64 n

unfoldable pub IsPrintable : Expr → Type 0
IsPrintable (pred p) = IsPrintablePredicate p
IsPrintable (not_expr e) = IsPrintable e
IsPrintable (and_expr a b) = IsPrintable a × IsPrintable b
IsPrintable (or_expr a b) = IsPrintable a × IsPrintable b
