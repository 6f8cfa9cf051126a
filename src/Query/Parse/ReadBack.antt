-- ===== src/Query/Parse/ReadBack.antt =====
-- The tokens of a printed expression against the descent.
mod Predicates
use Predicates.{predicate_back, no_not}
use alefsdb.Prelude.{
  String, ℕ, zero, suc, ◌+◌, ◌*◌, ◌-◌, ◌<◌, ◌≤◌, ◌≡◌, refl, true, false, List, [], ◌∷◌, ok, length,
  arith,
}
use alefsdb.Bytes.{text, same}
use alefsdb.Types.Value.{
  Scalar, null, bool, int, float, string, bytes, scalar, hash, set, list, tree,
}
use alefsdb.Query.Ast.{
  CmpOp, eq_op, ne_op, lt_op, le_op, gt_op, ge_op, Predicate, path_glob, type_name, name_glob,
  has_key, value_cmp, key_cmp, contains, at_index, size_cmp, Expr, and_expr, or_expr, not_expr,
  pred,
}
use alefsdb.Query.Parse.Tokens.{Tok, op, int_tok, lparen, rparen}
use alefsdb.Query.Parse.Parser.{
  word_scalar, parse_scalar_value, cmp_of, expect_cmp, parse_cmp_scalar, expect_string_like,
  expect_path_or_string, expect_int, index_of, expect_uint, predicate_of, parse_predicate, close,
  join_expr, is_joint, parse_expr, parse_joints, parse_term, parse_primary, enough, parse_tokens,
  all_read,
}
use alefsdb.Query.Parse.Print.{
  word, predicate_name, cmp_text, put_scalar, put_predicate, put_arguments, Place, whole, operand,
  negand, put, IsWritable, IsPrintablePredicate, IsPrintable,
}

-- How many calls an expression needs, and how many of them are rounds of the loop.
unfoldable size : Expr → ℕ
size (pred p) = 1
size (not_expr e) = suc (size e)
size (and_expr a b) = suc (size a + size b)
size (or_expr a b) = suc (size a + size b)

unfoldable rounds : Expr → ℕ
rounds (pred p) = 1
rounds (not_expr e) = 1
rounds (and_expr a b) = suc (rounds a)
rounds (or_expr a b) = suc (rounds a)

rounds_bounds : (e : Expr) → (1 ≤ rounds e) × (rounds e ≤ size e)
unfolding rounds size
rounds_bounds (pred p) = omega arith
rounds_bounds (not_expr e) = omega arith
rounds_bounds (and_expr a b) = omega (arith, (rounds_bounds a).1)
rounds_bounds (or_expr a b) = omega (arith, (rounds_bounds a).1)

-- What the descent does on an expression at each place, with enough fuel.
abbrev ReadsNegand : Expr → Type 0
ReadsNegand e =
    (f : ℕ) (k : List Tok) → 4 * size e ≤ f → parse_primary f (put negand e k) ≡ ok (e, k)

abbrev ReadsOperand : Expr → Type 0
ReadsOperand e =
    (f : ℕ) (k : List Tok) → 4 * size e < f → parse_term f (put operand e k) ≡ ok (e, k)

abbrev ReadsWhole : Expr → Type 0
ReadsWhole e =
    (f : ℕ) (k : List Tok)
    → 4 * size e ≤ rounds e + f + 1
    → parse_expr (rounds e + f) (put whole e k) ≡ parse_joints f e k

-- The same, of an expression without a joint.
abbrev ReadsLeaf : Expr → Type 0
ReadsLeaf e =
    (f : ℕ) (k : List Tok) → 4 * size e ≤ f + 2 → parse_term f (put operand e k) ≡ ok (e, k)

negand_of_pred :
    (p : Predicate)
    → IsPrintablePredicate p
    → (f : ℕ) (k : List Tok) → 1 ≤ f
    → parse_primary f (put negand (pred p) k) ≡ ok (pred p, k)
unfolding put parse_primary word
negand_of_pred p h zero k l = absurd (omega arith)
negand_of_pred p h (suc f) k l = rw (predicate_back p h k) refl

leaf_of_pred : (p : Predicate) → IsPrintablePredicate p → ReadsLeaf (pred p)
unfolding put parse_term word size
leaf_of_pred p h zero k l = absurd (omega arith)
leaf_of_pred p h (suc f) k l = rw (no_not p, parse_term) (negand_of_pred p h f k (omega arith))

leaf_of_not : (e : Expr) → ReadsNegand e → ReadsLeaf (not_expr e)
unfolding put parse_term word same text size
leaf_of_not e r zero k l = absurd (omega arith)
leaf_of_not e r (suc f) k l = rw (r f k (omega arith)) refl

-- A closing parenthesis ends the loop.
joints_end :
    (f : ℕ) (e : Expr) (k : List Tok) → 1 ≤ f → parse_joints f e (rparen ∷ k) ≡ ok (e, rparen ∷ k)
unfolding parse_joints
joints_end zero e k l = absurd (omega arith)
joints_end (suc f) e k l = refl

-- An expression in parentheses.
in_parens :
    (e : Expr)
    → ReadsWhole e
    → (f : ℕ) (k : List Tok) → 4 * size e ≤ f
    → parse_primary f (lparen ∷ put whole e (rparen ∷ k)) ≡ ok (e, k)
unfolding parse_primary close
in_parens e r zero k l = let b = rounds_bounds e in absurd (omega (arith, b.0, b.1))
in_parens e r (suc f) k l =
    let b = rounds_bounds e in
    let q : f ≡ rounds e + (f - rounds e) = omega (arith, b.0, b.1) in
    rw
      (
        q,
        r (f - rounds e) (rparen ∷ k) (omega (arith, b.0, b.1)),
        joints_end (f - rounds e) e k (omega (arith, b.0, b.1)),
      )
      refl

-- An expression without a joint.
whole_of_leaf :
    (e : Expr)
    → rounds e ≡ 1
    → ((k : List Tok) → put whole e k ≡ put operand e k)
    → ReadsLeaf e
    → ReadsWhole e
whole_of_leaf e one same_text r f k l =
    let s : rounds e + f ≡ suc f = omega (arith, one) in
    rw (s, same_text k) (unfold parse_expr in rw (r f k (omega (arith, one))) refl)

-- A joint, with the word `w` and the constructor that the code makes of it.
whole_of_joint :
    (w : String) (a b : Expr)
    → is_joint (text w) ≡ true
    → ReadsWhole a
    → ReadsOperand b
    → (f : ℕ) (k : List Tok) → 4 * suc (size a + size b) ≤ suc (rounds a) + f + 1
    → parse_expr (suc (rounds a) + f) (put whole a (word w ∷ put operand b k))
      ≡ parse_joints f (join_expr (text w) a b) k
whole_of_joint w a b j ra rb f k l =
    let ba = rounds_bounds a in
    let s : suc (rounds a) + f ≡ rounds a + suc f = omega arith in
    rw (s, ra (suc f) (word w ∷ put operand b k) (omega (arith, ba.0, ba.1)))
      (unfold parse_joints word in rw (j, rb f k (omega (arith, ba.0, ba.1)), parse_joints) refl)

abbrev Reads : Expr → Type 0
Reads e = ReadsNegand e × ReadsOperand e × ReadsWhole e

Reads-pred : (p : Predicate) → IsPrintablePredicate p → Reads (pred p)
unfolding put rounds size
Reads-pred p h =
    let o = leaf_of_pred p h in
    (
      λ f k l. negand_of_pred p h f k (omega arith),
      λ f k l. o f k (unfold size in omega arith),
      whole_of_leaf (pred p) refl (λ k. refl) o,
    )

Reads-not : (e : Expr) → Reads e → Reads (not_expr e)
unfolding put rounds size
Reads-not e r =
    let o = leaf_of_not e r.0 in
    let w = whole_of_leaf (not_expr e) refl (λ k. refl) o in
    (λ f k l. in_parens (not_expr e) w f k l, λ f k l. o f k (omega arith), w)

operand_in_parens :
    (e : Expr)
    → ReadsWhole e
    → (f : ℕ) (k : List Tok) → 4 * size e < f
    → parse_term f (lparen ∷ put whole e (rparen ∷ k)) ≡ ok (e, k)
unfolding parse_term
operand_in_parens e w zero k l = absurd (omega arith)
operand_in_parens e w (suc f) k l = in_parens e w f k (omega arith)

-- A joint stands in parentheses at the other two places.
Reads-joint :
    (e : Expr)
    → ((k : List Tok) → put negand e k ≡ lparen ∷ put whole e (rparen ∷ k))
    → ((k : List Tok) → put operand e k ≡ lparen ∷ put whole e (rparen ∷ k))
    → ReadsWhole e
    → Reads e
Reads-joint e n o w =
    (λ f k l. rw (n k) (in_parens e w f k l), λ f k l. rw (o k) (operand_in_parens e w f k l), w)

Reads-and : (a b : Expr) → Reads a → Reads b → Reads (and_expr a b)
unfolding put rounds size join_expr same text
Reads-and a b ra rb =
    Reads-joint (and_expr a b) (λ k. refl) (λ k. refl) (whole_of_joint "AND" a b refl ra.2 rb.1)

Reads-or : (a b : Expr) → Reads a → Reads b → Reads (or_expr a b)
unfolding put rounds size join_expr same text
Reads-or a b ra rb =
    Reads-joint (or_expr a b) (λ k. refl) (λ k. refl) (whole_of_joint "OR" a b refl ra.2 rb.1)

reads : (e : Expr) → IsPrintable e → Reads e
unfolding IsPrintable
reads (pred p) h = Reads-pred p h
reads (not_expr e) h = Reads-not e (reads e h)
reads (and_expr a b) h = Reads-and a b (reads a h.0) (reads b h.1)
reads (or_expr a b) h = Reads-or a b (reads a h.0) (reads b h.1)

length-put_arguments : (q : Predicate) (k : List Tok) → length k ≤ length (put_arguments q k)
length-put_arguments (path_glob g) k = omega arith
length-put_arguments (type_name t) k = omega arith
length-put_arguments (name_glob g) k = omega arith
length-put_arguments (has_key s) k = omega arith
length-put_arguments (value_cmp o s) k = omega arith
length-put_arguments (key_cmp o s) k = omega arith
length-put_arguments (contains v) k = omega arith
length-put_arguments (at_index i o s) k = omega arith
length-put_arguments (size_cmp o n) k = omega arith

length-put : (e : Expr) (p : Place) (k : List Tok) → size e + length k ≤ length (put p e k)
unfolding put size
length-put (pred q) p k = omega (arith, length-put_arguments q k)
length-put (not_expr e) whole k = omega (arith, length-put e negand k)
length-put (not_expr e) operand k = omega (arith, length-put e negand k)
length-put (not_expr e) negand k = omega (arith, length-put e negand (rparen ∷ k))
length-put (and_expr a b) whole k =
    omega (arith, length-put a whole (word "AND" ∷ put operand b k), length-put b operand k)
length-put (and_expr a b) operand k = omega (
  arith,
  length-put a whole (word "AND" ∷ put operand b (rparen ∷ k)),
  length-put b operand (rparen ∷ k),
)
length-put (and_expr a b) negand k = omega (
  arith,
  length-put a whole (word "AND" ∷ put operand b (rparen ∷ k)),
  length-put b operand (rparen ∷ k),
)
length-put (or_expr a b) whole k =
    omega (arith, length-put a whole (word "OR" ∷ put operand b k), length-put b operand k)
length-put (or_expr a b) operand k = omega (
  arith,
  length-put a whole (word "OR" ∷ put operand b (rparen ∷ k)),
  length-put b operand (rparen ∷ k),
)
length-put (or_expr a b) negand k = omega (
  arith,
  length-put a whole (word "OR" ∷ put operand b (rparen ∷ k)),
  length-put b operand (rparen ∷ k),
)

joints_nil : (e : Expr) (f : ℕ) → 1 ≤ f → parse_joints f e [] ≡ ok (e, [])
unfolding parse_joints
joints_nil e zero l = absurd (omega arith)
joints_nil e (suc f) l = refl

-- The tokens of a printed expression give the expression.
pub parse_tokens-put : (e : Expr) → IsPrintable e → parse_tokens (put whole e []) ≡ ok e
unfolding parse_tokens
parse_tokens-put e h =
    let ts = put whole e [] in
    let b = rounds_bounds e in
    let l = length-put e whole [] in
    let q : enough ts ≡ rounds e + (enough ts - rounds e) = omega (arith, b.0, b.1, l) in
    rw
      (
        q,
        (reads e h).2 (enough ts - rounds e) [] (omega (arith, b.0, b.1, l)),
        joints_nil e (enough ts - rounds e) (omega (arith, b.0, b.1, l)),
      )
      (unfold all_read in refl)
