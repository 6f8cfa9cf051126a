-- ===== src/Query/Parse/Termination/Predicates.antt =====
-- The fuel and the tokens that the parser of a predicate leaves.
use alefsdb.Prelude.{ℕ, ap, List, [], ◌∷◌, Result, ok, err, ◌>>=◌, length, arith}
use alefsdb.Prelude.Order.{ℤ, pos, negsuc}
use alefsdb.Bytes.{Bytes, text, same, starts_with}
use alefsdb.Types.Value.{scalar}
use alefsdb.Query.Ast.{
  path_glob, type_name, name_glob, has_key, value_cmp, key_cmp, contains, at_index, size_cmp, Expr,
}
use alefsdb.Query.Parse.Tokens.{
  Tok, ident, string_tok, op, int_tok, float_tok, lparen, rparen, ParseError,
}
use alefsdb.Query.Parse.Parser.{
  parse_scalar_value, cmp_of, expect_cmp, parse_cmp_scalar, expect_string_like,
  expect_path_or_string, expect_int, index_of, expect_uint, predicate_of, parse_predicate, close,
}
use alefsdb.Query.Parse.Termination.{
  Within, failed, left_over, Within-bind, Within-if, Within-le, Finishes, Finishes-if,
}

Within-scalar : (ts : List Tok) → Within (length ts) (parse_scalar_value ts)
unfolding parse_scalar_value
Within-scalar [] = failed _ (cc)
Within-scalar (ident s ∷ ts) = left_over _ _ (omega arith)
Within-scalar (string_tok s ∷ ts) = left_over _ _ (omega arith)
Within-scalar (int_tok s ∷ ts) = left_over _ _ (omega arith)
Within-scalar (float_tok s ∷ ts) = left_over _ _ (omega arith)
Within-scalar (op s ∷ ts) = failed _ (cc)
Within-scalar (lparen ∷ ts) = failed _ (cc)
Within-scalar (rparen ∷ ts) = failed _ (cc)

-- A check that reads no token.
Within-check {ℓ} :
    {A : Type ℓ} (r : Result ParseError A) (ts : List Tok)
    → Finishes r
    → Within (length ts) (r >>= λ a. ok (a, ts))
Within-check (err e) ts h = failed e (λ q. h (ap (λ e'. err e') q))
Within-check (ok a) ts h = left_over _ _ (omega arith)

cmp_of-Finishes : (s : Bytes) → Finishes (cmp_of s)
unfolding cmp_of
cmp_of-Finishes s = Finishes-if (same s (text "=")) (cc) (
    Finishes-if (same s (text "!=")) (cc) (
      Finishes-if (same s (text "<")) (cc) (
        Finishes-if (same s (text "<=")) (cc)
          (Finishes-if (same s (text ">")) (cc) (Finishes-if (same s (text ">=")) (cc) (cc))))))

Within-cmp : (ts : List Tok) → Within (length ts) (expect_cmp ts)
unfolding expect_cmp
Within-cmp [] = failed _ (cc)
Within-cmp (op s ∷ ts) =
    Within-le (length ts) _ (omega arith) (Within-check (cmp_of s) ts (cmp_of-Finishes s))
Within-cmp (ident s ∷ ts) = failed _ (cc)
Within-cmp (string_tok s ∷ ts) = failed _ (cc)
Within-cmp (int_tok s ∷ ts) = failed _ (cc)
Within-cmp (float_tok s ∷ ts) = failed _ (cc)
Within-cmp (lparen ∷ ts) = failed _ (cc)
Within-cmp (rparen ∷ ts) = failed _ (cc)

Within-cmp_scalar : (ts : List Tok) → Within (length ts) (parse_cmp_scalar ts)
unfolding parse_cmp_scalar
Within-cmp_scalar ts = Within-bind (length ts) _ _ (Within-cmp ts) (λ o us l.
    Within-bind (length us) _ _ (Within-scalar us) (λ s vs m. left_over _ _ (omega (arith, l, m))))

Within-string : (ts : List Tok) → Within (length ts) (expect_string_like ts)
unfolding expect_string_like
Within-string [] = failed _ (cc)
Within-string (ident s ∷ ts) = left_over _ _ (omega arith)
Within-string (string_tok s ∷ ts) = left_over _ _ (omega arith)
Within-string (op s ∷ ts) = failed _ (cc)
Within-string (int_tok s ∷ ts) = failed _ (cc)
Within-string (float_tok s ∷ ts) = failed _ (cc)
Within-string (lparen ∷ ts) = failed _ (cc)
Within-string (rparen ∷ ts) = failed _ (cc)

Within-path : (ts : List Tok) → Within (length ts) (expect_path_or_string ts)
unfolding expect_path_or_string
Within-path [] = failed _ (cc)
Within-path (ident s ∷ ts) = left_over _ _ (omega arith)
Within-path (string_tok s ∷ ts) = left_over _ _ (omega arith)
Within-path (op s ∷ ts) =
    Within-if (starts_with (b'/' ∷ []) s) (left_over _ _ (omega arith)) (failed _ (cc))
Within-path (int_tok s ∷ ts) = failed _ (cc)
Within-path (float_tok s ∷ ts) = failed _ (cc)
Within-path (lparen ∷ ts) = failed _ (cc)
Within-path (rparen ∷ ts) = failed _ (cc)

Within-int : (ts : List Tok) → Within (length ts) (expect_int ts)
unfolding expect_int
Within-int [] = failed _ (cc)
Within-int (int_tok s ∷ ts) = left_over _ _ (omega arith)
Within-int (ident s ∷ ts) = failed _ (cc)
Within-int (string_tok s ∷ ts) = failed _ (cc)
Within-int (op s ∷ ts) = failed _ (cc)
Within-int (float_tok s ∷ ts) = failed _ (cc)
Within-int (lparen ∷ ts) = failed _ (cc)
Within-int (rparen ∷ ts) = failed _ (cc)

index_of-Finishes : (n : ℤ) → Finishes (index_of n)
unfolding index_of
index_of-Finishes (pos n) = cc
index_of-Finishes (negsuc n) = cc

Within-uint : (ts : List Tok) → Within (length ts) (expect_uint ts)
unfolding expect_uint
Within-uint ts =
    Within-bind (length ts) _ _ (Within-int ts)
      (λ n us l. Within-le (length us) _ l (Within-check (index_of n) us (index_of-Finishes n)))

-- An argument that the rest of the predicate is made of.
pub Within-map {ℓ κ} :
    {A : Type ℓ} {B : Type κ} (n : ℕ) {r : Result ParseError (A × List Tok)} (g : A → B)
    → Within n r
    → Within n (r >>= λ x. ok (g x.0, x.1))
Within-map n g (failed e h) = failed e h
Within-map n g (left_over a rest l) = left_over (g a) rest l

Within-at :
    (ts : List Tok)
    → Within
        (length ts)
        (expect_uint ts >>= λ x. parse_cmp_scalar x.1 >>= λ y. ok (at_index x.0 y.0.0 y.0.1, y.1))
Within-at ts = Within-bind (length ts) _ _ (Within-uint ts) (λ i us l.
    Within-le (length us) _ l
      (Within-map (length us) (λ c. at_index i c.0 c.1) (Within-cmp_scalar us)))

Within-size :
    (ts : List Tok)
    → Within (length ts) (expect_cmp ts >>= λ x. expect_int x.1 >>= λ y. ok (size_cmp x.0 y.0, y.1))
Within-size ts = Within-bind (length ts) _ _ (Within-cmp ts) (λ o us l.
    Within-le (length us) _ l (Within-map (length us) (λ n. size_cmp o n) (Within-int us)))

Within-predicate_of : (name : Bytes) (ts : List Tok) → Within (length ts) (predicate_of name ts)
unfolding predicate_of
Within-predicate_of name ts =
    let n = length ts in
    Within-if (same name (text "path")) (Within-map n (λ g. path_glob g) (Within-path ts)) (
      Within-if (same name (text "type")) (Within-map n (λ t. type_name t) (Within-string ts)) (
        Within-if (same name (text "name")) (Within-map n (λ g. name_glob g) (Within-string ts)) (
          Within-if (same name (text "value"))
            (Within-map n (λ c. value_cmp c.0 c.1) (Within-cmp_scalar ts))
            (Within-if (same name (text "has")) (Within-map n (λ k. has_key k) (Within-string ts)) (
              Within-if (same name (text "contains"))
                (Within-map n (λ s. contains (scalar s)) (Within-scalar ts))
                (Within-if (same name (text "at")) (Within-at ts) (
                  Within-if (same name (text "key"))
                    (Within-map n (λ c. key_cmp c.0 c.1) (Within-cmp_scalar ts))
                    (Within-if (same name (text "size")) (Within-size ts) (failed _ (cc))))))))))

pub Within-predicate : (ts : List Tok) → Within (length ts) (parse_predicate ts)
unfolding parse_predicate
Within-predicate [] = failed _ (cc)
Within-predicate (ident s ∷ ts) = Within-le (length ts) _ (omega arith) (Within-predicate_of s ts)
Within-predicate (string_tok s ∷ ts) = failed _ (cc)
Within-predicate (op s ∷ ts) = failed _ (cc)
Within-predicate (int_tok s ∷ ts) = failed _ (cc)
Within-predicate (float_tok s ∷ ts) = failed _ (cc)
Within-predicate (lparen ∷ ts) = failed _ (cc)
Within-predicate (rparen ∷ ts) = failed _ (cc)

pub Within-close : (e : Expr) (ts : List Tok) → Within (length ts) (close e ts)
unfolding close
Within-close e [] = failed _ (cc)
Within-close e (rparen ∷ ts) = left_over _ _ (omega arith)
Within-close e (ident s ∷ ts) = failed _ (cc)
Within-close e (string_tok s ∷ ts) = failed _ (cc)
Within-close e (op s ∷ ts) = failed _ (cc)
Within-close e (int_tok s ∷ ts) = failed _ (cc)
Within-close e (float_tok s ∷ ts) = failed _ (cc)
Within-close e (lparen ∷ ts) = failed _ (cc)
