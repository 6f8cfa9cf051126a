-- ===== src/Query/Parse/Parser.antt =====
-- `Parser`: recursive descent over the tokens that are left. `self.tokens[self.i..]` is the list.
use alefsdb.Prelude.{
  ℕ, zero, suc, ◌+◌, ◌*◌, Bool, true, false, ◌||◌, Option, none, some, List, [], ◌∷◌, Result, ok,
  err, ◌>>=◌, length, if◌then◌else◌,
}
use alefsdb.Prelude.Order.{ℤ, pos, negsuc}
use alefsdb.Bytes.{Bytes, text, same, starts_with}
use alefsdb.Types.Value.{Scalar, null, bool, int, float, string, scalar}
use alefsdb.Query.Ast.{
  CmpOp, eq_op, ne_op, lt_op, le_op, gt_op, ge_op, Predicate, path_glob, type_name, name_glob,
  has_key, value_cmp, key_cmp, contains, at_index, size_cmp, Expr, and_expr, or_expr, not_expr,
  pred,
}
use alefsdb.Query.Parse.Tokens.{
  Tok, ident, string_tok, op, int_tok, float_tok, lparen, rparen, ParseError, unexpected_token,
  expected_close, unknown_predicate, bad_cmp, expected_predicate, expected_scalar, expected_cmp,
  expected_string, expected_path, expected_int, negative_index, out_of_fuel, ParseF64, tokenize,
}

abbrev pub Parser {ℓ} : Type ℓ → Type ℓ
Parser A = List Tok → Result ParseError (A × List Tok)

-- `peek`, which is also what `bump` returns.
abbrev pub peek : List Tok → Option Tok
peek [] = none
peek (t ∷ ts) = some t

-- An identifier in the place of a scalar.
unfoldable pub word_scalar : Bytes → Scalar
word_scalar s =
    if same s (text "null")
    then null
    else if same s (text "true")
    then bool true
    else if same s (text "false")
    then bool false
    else string s

unfoldable pub parse_scalar_value : Parser Scalar
parse_scalar_value (string_tok s ∷ ts) = ok (string s, ts)
parse_scalar_value (int_tok n ∷ ts) = ok (int n, ts)
parse_scalar_value (float_tok f ∷ ts) = ok (float f, ts)
parse_scalar_value (ident s ∷ ts) = ok (word_scalar s, ts)
parse_scalar_value ts = err (expected_scalar (peek ts))

unfoldable pub cmp_of : Bytes → Result ParseError CmpOp
cmp_of s =
    if same s (text "=")
    then ok eq_op
    else if same s (text "!=")
    then ok ne_op
    else if same s (text "<")
    then ok lt_op
    else if same s (text "<=")
    then ok le_op
    else if same s (text ">")
    then ok gt_op
    else if same s (text ">=")
    then ok ge_op
    else err (bad_cmp s)

unfoldable pub expect_cmp : Parser CmpOp
expect_cmp (op s ∷ ts) = cmp_of s >>= λ o. ok (o, ts)
expect_cmp ts = err (expected_cmp (peek ts))

unfoldable pub parse_cmp_scalar : Parser (CmpOp × Scalar)
parse_cmp_scalar ts = do (o, us) ← expect_cmp ts; (s, vs) ← parse_scalar_value us; ok ((o, s), vs)

unfoldable pub expect_string_like : Parser Bytes
expect_string_like (string_tok s ∷ ts) = ok (s, ts)
expect_string_like (ident s ∷ ts) = ok (s, ts)
expect_string_like ts = err (expected_string (peek ts))

unfoldable pub expect_path_or_string : Parser Bytes
expect_path_or_string (string_tok s ∷ ts) = ok (s, ts)
expect_path_or_string (ident s ∷ ts) = ok (s, ts)
expect_path_or_string (op s ∷ ts) =
    if starts_with (b'/' ∷ []) s then ok (s, ts) else err (expected_path (some (op s)))
expect_path_or_string ts = err (expected_path (peek ts))

unfoldable pub expect_int : Parser ℤ
expect_int (int_tok n ∷ ts) = ok (n, ts)
expect_int ts = err (expected_int (peek ts))

unfoldable pub index_of : ℤ → Result ParseError ℕ
index_of (pos n) = ok n
index_of (negsuc n) = err negative_index

unfoldable pub expect_uint : Parser ℕ
expect_uint ts = do (n, us) ← expect_int ts; i ← index_of n; ok (i, us)

-- The `match` on the predicate's name.
unfoldable pub predicate_of : Bytes → Parser Predicate
predicate_of name ts =
    if same name (text "path")
    then (do (g, us) ← expect_path_or_string ts; ok (path_glob g, us))
    else if same name (text "type")
    then (do (t, us) ← expect_string_like ts; ok (type_name t, us))
    else if same name (text "name")
    then (do (g, us) ← expect_string_like ts; ok (name_glob g, us))
    else if same name (text "value")
    then (do ((o, s), us) ← parse_cmp_scalar ts; ok (value_cmp o s, us))
    else if same name (text "has")
    then (do (k, us) ← expect_string_like ts; ok (has_key k, us))
    else if same name (text "contains")
    then (do (s, us) ← parse_scalar_value ts; ok (contains (scalar s), us))
    else if same name (text "at")
    then (do (i, us) ← expect_uint ts; ((o, s), vs) ← parse_cmp_scalar us; ok (at_index i o s, vs))
    else if same name (text "key")
    then (do ((o, s), us) ← parse_cmp_scalar ts; ok (key_cmp o s, us))
    else if same name (text "size")
    then (do (o, us) ← expect_cmp ts; (n, vs) ← expect_int us; ok (size_cmp o n, vs))
    else err (unknown_predicate name)

unfoldable pub parse_predicate : Parser Predicate
parse_predicate (ident s ∷ ts) = predicate_of s ts
parse_predicate ts = err (expected_predicate (peek ts))

unfoldable pub close : Expr → Parser Expr
close e (rparen ∷ ts) = ok (e, ts)
close e ts = err expected_close

abbrev pub is_joint : Bytes → Bool
is_joint s = same s (text "AND") || same s (text "OR")

unfoldable pub join_expr : Bytes → Expr → Expr → Expr
join_expr s left right = if same s (text "AND") then and_expr left right else or_expr left right

-- The descent, on fuel: a unit for each call.
unfoldable mutual
  pub parse_expr : ℕ → List Tok → Result ParseError (Expr × List Tok)
  parse_expr zero ts = err out_of_fuel
  parse_expr (suc f) ts = parse_term f ts >>= λ r. parse_joints f r.0 r.1

  -- The `while let` of `parse_expr`.
  pub parse_joints : ℕ → Expr → List Tok → Result ParseError (Expr × List Tok)
  parse_joints zero left ts = err out_of_fuel
  parse_joints (suc f) left (ident s ∷ ts) = elim (is_joint s) [
    | true ↦ parse_term f ts >>= λ r. parse_joints f (join_expr s left r.0) r.1
    | false ↦ ok (left, ident s ∷ ts)
  ]
  parse_joints (suc f) left ts = ok (left, ts)

  pub parse_term : ℕ → List Tok → Result ParseError (Expr × List Tok)
  parse_term zero ts = err out_of_fuel
  parse_term (suc f) (ident s ∷ ts) = elim (same s (text "NOT")) [
    | true ↦ parse_primary f ts >>= λ r. ok (not_expr r.0, r.1)
    | false ↦ parse_primary f (ident s ∷ ts)
  ]
  parse_term (suc f) ts = parse_primary f ts

  pub parse_primary : ℕ → List Tok → Result ParseError (Expr × List Tok)
  parse_primary zero ts = err out_of_fuel
  parse_primary (suc f) (lparen ∷ ts) = parse_expr f ts >>= λ r. close r.0 r.1
  parse_primary (suc f) ts = parse_predicate ts >>= λ r. ok (pred r.0, r.1)

-- Nothing may be left.
unfoldable pub all_read : Expr × List Tok → Result ParseError Expr
all_read (e, []) = ok e
all_read (e, t ∷ ts) = err (unexpected_token t)

abbrev pub enough : List Tok → ℕ
enough ts = 4 * length ts + 4

unfoldable pub parse_tokens : List Tok → Result ParseError Expr
parse_tokens ts = parse_expr (enough ts) ts >>= all_read

unfoldable pub parse_query : ParseF64 → Bytes → Result ParseError Expr
parse_query parse_f64 input = tokenize parse_f64 input >>= parse_tokens
