-- ===== src/Query/Parse/RoundTrip.antt =====
-- The text of a printed expression against the parser.
use alefsdb.Prelude.{suc, ◌≡◌, refl, true, false, String, List, [], ◌∷◌, ok, length, arith, All}
use alefsdb.Bytes.{Bytes, text}
use alefsdb.Types.Value.{
  Scalar, null, bool, int, float, string, bytes, scalar, hash, set, list, tree,
}
use alefsdb.Query.Ast.{
  Predicate, path_glob, type_name, name_glob, has_key, value_cmp, key_cmp, contains, at_index,
  size_cmp, Expr, and_expr, or_expr, not_expr, pred,
}
use alefsdb.Query.Parse.Tokens.{Tok, ident, lparen, rparen, ParseF64, tokenize}
use alefsdb.Query.Parse.Parser.{parse_query}
use alefsdb.Query.Parse.Print.{
  word, predicate_name, put_scalar, put_arguments, Place, whole, operand, negand, put, IsWritable,
  IsPrintablePredicate, IsPrintable,
}
use alefsdb.Query.Parse.ReadBack.{parse_tokens-put}
use alefsdb.Query.Parse.Written.{show_tokens, show_query, IsPlain}
use alefsdb.Query.Parse.Lexing.{is_word, is_word-IsWord, tokens-show_tokens}

IsPlain-word : (s : Bytes) → is_word s ≡ true → IsPlain (ident s)
unfolding IsPlain
IsPlain-word s h = is_word-IsWord s h

name_plain : (p : Predicate) → is_word (text (predicate_name p)) ≡ true
unfolding text
name_plain (path_glob g) = refl
name_plain (type_name t) = refl
name_plain (name_glob g) = refl
name_plain (has_key s) = refl
name_plain (value_cmp o s) = refl
name_plain (key_cmp o s) = refl
name_plain (contains v) = refl
name_plain (at_index i o s) = refl
name_plain (size_cmp o n) = refl

scalar-IsPlain : (s : Scalar) → IsWritable s → IsPlain (put_scalar s)
unfolding IsPlain word text
scalar-IsPlain null h = is_word-IsWord (text "null") refl
scalar-IsPlain (bool true) h = is_word-IsWord (text "true") refl
scalar-IsPlain (bool false) h = is_word-IsWord (text "false") refl
scalar-IsPlain (int n) h = h
scalar-IsPlain (float f) h = absurd h
scalar-IsPlain (string s) h = tt
scalar-IsPlain (bytes s) h = absurd h

arguments-IsPlain :
    (p : Predicate) (k : List Tok)
    → IsPrintablePredicate p
    → All IsPlain k
    → All IsPlain (put_arguments p k)
unfolding IsPlain
arguments-IsPlain (path_glob g) k h q = (tt, q)
arguments-IsPlain (type_name t) k h q = (tt, q)
arguments-IsPlain (name_glob g) k h q = (tt, q)
arguments-IsPlain (has_key s) k h q = (tt, q)
arguments-IsPlain (value_cmp o s) k h q = ((o, refl), (scalar-IsPlain s h, q))
arguments-IsPlain (key_cmp o s) k h q = ((o, refl), (scalar-IsPlain s h, q))
arguments-IsPlain (contains (scalar s)) k h q = (scalar-IsPlain s h, q)
arguments-IsPlain (contains (hash m)) k h q = absurd h
arguments-IsPlain (contains (set m)) k h q = absurd h
arguments-IsPlain (contains (list m)) k h q = absurd h
arguments-IsPlain (contains (tree m)) k h q = absurd h
arguments-IsPlain (at_index i o s) k (hi, hs) q = (hi, ((o, refl), (scalar-IsPlain s hs, q)))
arguments-IsPlain (size_cmp o n) k h q = ((o, refl), (h, q))

-- A keyword of the joints.
keyword : (w : String) → is_word (text w) ≡ true → IsPlain (word w)
unfolding word
keyword w h = IsPlain-word (text w) h

parens-IsPlain : (k : List Tok) → All IsPlain k → All IsPlain (rparen ∷ k)
unfolding IsPlain
parens-IsPlain k q = (tt, q)

open-IsPlain : IsPlain lparen
unfolding IsPlain
open-IsPlain = tt

put-IsPlain :
    (e : Expr) (p : Place) (k : List Tok) → IsPrintable e → All IsPlain k → All IsPlain (put p e k)
unfolding put IsPrintable text
put-IsPlain (pred r) p k h q =
    (keyword (predicate_name r) (name_plain r), arguments-IsPlain r k h q)
put-IsPlain (not_expr e) whole k h q = (keyword "NOT" refl, put-IsPlain e negand k h q)
put-IsPlain (not_expr e) operand k h q = (keyword "NOT" refl, put-IsPlain e negand k h q)
put-IsPlain (not_expr e) negand k h q =
    (open-IsPlain, (keyword "NOT" refl, put-IsPlain e negand (rparen ∷ k) h (parens-IsPlain k q)))
put-IsPlain (and_expr a b) whole k (ha, hb) q =
    put-IsPlain a whole (word "AND" ∷ put operand b k) ha
      (keyword "AND" refl, put-IsPlain b operand k hb q)
put-IsPlain (and_expr a b) operand k (ha, hb) q = (
  open-IsPlain,
  put-IsPlain a whole (word "AND" ∷ put operand b (rparen ∷ k)) ha
      (keyword "AND" refl, put-IsPlain b operand (rparen ∷ k) hb (parens-IsPlain k q)),
)
put-IsPlain (and_expr a b) negand k (ha, hb) q = (
  open-IsPlain,
  put-IsPlain a whole (word "AND" ∷ put operand b (rparen ∷ k)) ha
      (keyword "AND" refl, put-IsPlain b operand (rparen ∷ k) hb (parens-IsPlain k q)),
)
put-IsPlain (or_expr a b) whole k (ha, hb) q =
    put-IsPlain a whole (word "OR" ∷ put operand b k) ha
      (keyword "OR" refl, put-IsPlain b operand k hb q)
put-IsPlain (or_expr a b) operand k (ha, hb) q = (
  open-IsPlain,
  put-IsPlain a whole (word "OR" ∷ put operand b (rparen ∷ k)) ha
      (keyword "OR" refl, put-IsPlain b operand (rparen ∷ k) hb (parens-IsPlain k q)),
)
put-IsPlain (or_expr a b) negand k (ha, hb) q = (
  open-IsPlain,
  put-IsPlain a whole (word "OR" ∷ put operand b (rparen ∷ k)) ha
      (keyword "OR" refl, put-IsPlain b operand (rparen ∷ k) hb (parens-IsPlain k q)),
)

-- The text that is written for an expression is parsed as that expression, whatever floats parse
-- as, when its scalars are neither floats nor byte strings and its integers are within an `i64`.
pub parse_query-show_query :
    (parse_f64 : ParseF64) (e : Expr) → IsPrintable e → parse_query parse_f64 (show_query e) ≡ ok e
unfolding parse_query tokenize show_query
parse_query-show_query pf e h =
    let ts = put whole e [] in
    let n = suc (length (show_tokens ts)) in
    rw (tokens-show_tokens pf ts (put-IsPlain e whole [] h tt) n (omega arith))
      (parse_tokens-put e h)
