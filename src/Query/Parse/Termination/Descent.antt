-- ===== src/Query/Parse/Termination/Descent.antt =====
-- The fuel of the descent of the parser.
use alefsdb.Prelude.{
  ℕ, zero, suc, ◌+◌, ◌*◌, ◌≤◌, ◌≢◌, List, [], ◌∷◌, Result, ok, err, ◌>>=◌, length, arith,
}
use alefsdb.Bytes.{Bytes, text, same}
use alefsdb.Query.Ast.{Expr, not_expr, pred}
use alefsdb.Query.Parse.Tokens.{
  Tok, ident, string_tok, op, int_tok, float_tok, lparen, rparen, ParseError, out_of_fuel, ParseF64,
  tokenize,
}
use alefsdb.Query.Parse.Parser.{
  is_joint, join_expr, parse_expr, parse_joints, parse_term, parse_primary, enough, parse_tokens,
  parse_query, all_read,
}
use alefsdb.Query.Parse.Termination.{
  Within, left_over, Within-bind, Within-elim, Within-le, Finishes, Finishes-bind, tokens-Finishes,
}
use alefsdb.Query.Parse.Termination.Predicates.{Within-map, Within-predicate, Within-close}

abbrev Primaries : ℕ → Type 0
Primaries f = (ts : List Tok) → 4 * length ts + 1 ≤ f → Within (length ts) (parse_primary f ts)

abbrev Terms : ℕ → Type 0
Terms f = (ts : List Tok) → 4 * length ts + 2 ≤ f → Within (length ts) (parse_term f ts)

abbrev Joints : ℕ → Type 0
Joints f =
    (e : Expr) (ts : List Tok) → 4 * length ts + 1 ≤ f → Within (length ts) (parse_joints f e ts)

abbrev Exprs : ℕ → Type 0
Exprs f = (ts : List Tok) → 4 * length ts + 3 ≤ f → Within (length ts) (parse_expr f ts)

next_primary : (f : ℕ) → Exprs f → Primaries (suc f)
unfolding parse_primary
next_primary f h (lparen ∷ ts) l =
    Within-bind (length ts) _ _ (h ts (omega (arith, l)))
      (λ e us m. Within-le (length us) _ (omega (arith, m)) (Within-close e us))
next_primary f h [] l = Within-map 0 (λ p. pred p) (Within-predicate [])
next_primary f h (ident s ∷ ts) l = Within-map _ (λ p. pred p) (Within-predicate (ident s ∷ ts))
next_primary f h (string_tok s ∷ ts) l =
    Within-map _ (λ p. pred p) (Within-predicate (string_tok s ∷ ts))
next_primary f h (op s ∷ ts) l = Within-map _ (λ p. pred p) (Within-predicate (op s ∷ ts))
next_primary f h (int_tok s ∷ ts) l = Within-map _ (λ p. pred p) (Within-predicate (int_tok s ∷ ts))
next_primary f h (float_tok s ∷ ts) l =
    Within-map _ (λ p. pred p) (Within-predicate (float_tok s ∷ ts))
next_primary f h (rparen ∷ ts) l = Within-map _ (λ p. pred p) (Within-predicate (rparen ∷ ts))

next_term : (f : ℕ) → Primaries f → Terms (suc f)
unfolding parse_term
next_term f h (ident s ∷ ts) l =
    Within-elim (same s (text "NOT"))
      (Within-map _ (λ e. not_expr e)
        (Within-le (length ts) _ (omega arith) (h ts (omega (arith, l)))))
      (h (ident s ∷ ts) (omega (arith, l)))
next_term f h [] l = h [] (omega (arith, l))
next_term f h (lparen ∷ ts) l = h (lparen ∷ ts) (omega (arith, l))
next_term f h (string_tok s ∷ ts) l = h (string_tok s ∷ ts) (omega (arith, l))
next_term f h (op s ∷ ts) l = h (op s ∷ ts) (omega (arith, l))
next_term f h (int_tok s ∷ ts) l = h (int_tok s ∷ ts) (omega (arith, l))
next_term f h (float_tok s ∷ ts) l = h (float_tok s ∷ ts) (omega (arith, l))
next_term f h (rparen ∷ ts) l = h (rparen ∷ ts) (omega (arith, l))

next-Joints : (f : ℕ) → Terms f → Joints f → Joints (suc f)
unfolding parse_joints
next-Joints f ht hj e (ident s ∷ ts) l =
    Within-elim (is_joint s)
      (Within-bind (length ts) _ _ (ht ts (omega (arith, l))) (λ r us m.
        Within-le (length us) _ (omega (arith, m)) (hj (join_expr s e r) us (omega (arith, l, m)))))
      (left_over _ _ (omega arith))
next-Joints f ht hj e [] l = left_over _ _ (omega arith)
next-Joints f ht hj e (lparen ∷ ts) l = left_over _ _ (omega arith)
next-Joints f ht hj e (string_tok s ∷ ts) l = left_over _ _ (omega arith)
next-Joints f ht hj e (op s ∷ ts) l = left_over _ _ (omega arith)
next-Joints f ht hj e (int_tok s ∷ ts) l = left_over _ _ (omega arith)
next-Joints f ht hj e (float_tok s ∷ ts) l = left_over _ _ (omega arith)
next-Joints f ht hj e (rparen ∷ ts) l = left_over _ _ (omega arith)

next_expr : (f : ℕ) → Terms f → Joints f → Exprs (suc f)
unfolding parse_expr
next_expr f ht hj ts l =
    Within-bind (length ts) _ _ (ht ts (omega (arith, l)))
      (λ e us m. Within-le (length us) _ m (hj e us (omega (arith, l, m))))

descends : (f : ℕ) → Primaries f × Terms f × Joints f × Exprs f
descends zero = (
  λ ts l. absurd (omega (arith, l)),
  λ ts l. absurd (omega (arith, l)),
  λ e ts l. absurd (omega (arith, l)),
  λ ts l. absurd (omega (arith, l)),
)
descends (suc f) =
    let (p, t, j, x) = descends f in
    (next_primary f x, next_term f p, next-Joints f t j, next_expr f t j)

all_read-Finishes : (e : Expr) (ts : List Tok) → Finishes (all_read (e, ts))
unfolding all_read
all_read-Finishes e [] = cc
all_read-Finishes e (t ∷ ts) = cc

parse_tokens-Finishes : (ts : List Tok) → Finishes (parse_tokens ts)
unfolding parse_tokens
parse_tokens-Finishes ts =
    Finishes-bind (length ts) _ ((descends (enough ts)).3 ts (omega arith))
      (λ e us m. all_read-Finishes e us)

tokenize-Finishes : (pf : ParseF64) (bs : Bytes) → Finishes (tokenize pf bs)
unfolding tokenize
tokenize-Finishes pf bs = tokens-Finishes pf (suc (length bs)) bs (omega arith)

-- The parser never runs out of fuel, on any text: it gives an expression or one of the errors of
-- the code.
pub parse_query-total :
    (parse_f64 : ParseF64) (input : Bytes) → parse_query parse_f64 input ≢ err out_of_fuel
unfolding parse_query
parse_query-total pf input = go (tokenize pf input) (tokenize-Finishes pf input)
  where
    go : (r : Result ParseError (List Tok)) → Finishes r → Finishes (r >>= parse_tokens)
    go (err e) h = λ q. h (cc)
    go (ok ts) h = parse_tokens-Finishes ts
