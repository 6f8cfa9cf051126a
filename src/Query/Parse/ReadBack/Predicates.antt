-- ===== src/Query/Parse/ReadBack/Predicates.antt =====
-- The tokens of scalars and predicates against the descent.
use alefsdb.Prelude.{◌≡◌, refl, true, false, List, ◌∷◌, ok}
use alefsdb.Bytes.{text, same}
use alefsdb.Types.Value.{
  Scalar, null, bool, int, float, string, bytes, scalar, hash, set, list, tree,
}
use alefsdb.Query.Ast.{
  CmpOp, eq_op, ne_op, lt_op, le_op, gt_op, ge_op, Predicate, path_glob, type_name, name_glob,
  has_key, value_cmp, key_cmp, contains, at_index, size_cmp,
}
use alefsdb.Query.Parse.Tokens.{Tok, op, int_tok}
use alefsdb.Query.Parse.Parser.{
  word_scalar, parse_scalar_value, cmp_of, expect_cmp, parse_cmp_scalar, expect_string_like,
  expect_path_or_string, expect_int, index_of, expect_uint, predicate_of, parse_predicate,
}
use alefsdb.Query.Parse.Print.{
  word, predicate_name, cmp_text, put_scalar, put_predicate, IsWritable, IsPrintablePredicate,
}

scalar_back :
    (s : Scalar) → IsWritable s → (k : List Tok) → parse_scalar_value (put_scalar s ∷ k) ≡ ok (s, k)
unfolding parse_scalar_value word_scalar word text same
scalar_back null h k = refl
scalar_back (bool true) h k = refl
scalar_back (bool false) h k = refl
scalar_back (int n) h k = refl
scalar_back (float f) h k = absurd h
scalar_back (string s) h k = refl
scalar_back (bytes s) h k = absurd h

cmp_back : (o : CmpOp) (k : List Tok) → expect_cmp (op (cmp_text o) ∷ k) ≡ ok (o, k)
unfolding expect_cmp cmp_of text same
cmp_back eq_op k = refl
cmp_back ne_op k = refl
cmp_back lt_op k = refl
cmp_back le_op k = refl
cmp_back gt_op k = refl
cmp_back ge_op k = refl

cmp_scalar_back :
    (o : CmpOp) (s : Scalar)
    → IsWritable s
    → (k : List Tok) → parse_cmp_scalar (op (cmp_text o) ∷ put_scalar s ∷ k) ≡ ok ((o, s), k)
unfolding parse_cmp_scalar
cmp_scalar_back o s h k = rw (cmp_back o (put_scalar s ∷ k), scalar_back s h k) refl

-- The word of a predicate is the name of its parser.
pub predicate_back :
    (p : Predicate)
    → IsPrintablePredicate p
    → (k : List Tok) → parse_predicate (put_predicate p k) ≡ ok (p, k)
unfolding parse_predicate predicate_of word text same expect_path_or_string expect_string_like
    expect_int expect_uint index_of
predicate_back (path_glob g) h k = refl
predicate_back (type_name t) h k = refl
predicate_back (name_glob g) h k = refl
predicate_back (has_key s) h k = refl
predicate_back (value_cmp o s) h k = rw (cmp_scalar_back o s h k) refl
predicate_back (key_cmp o s) h k = rw (cmp_scalar_back o s h k) refl
predicate_back (contains (scalar s)) h k = rw (scalar_back s h k) refl
predicate_back (contains (hash m)) h k = absurd h
predicate_back (contains (set m)) h k = absurd h
predicate_back (contains (list m)) h k = absurd h
predicate_back (contains (tree m)) h k = absurd h
predicate_back (at_index i o s) h k = rw (cmp_scalar_back o s h.1 k) refl
predicate_back (size_cmp o n) h k = rw (cmp_back o (int_tok n ∷ k)) refl

pub no_not : (p : Predicate) → same (text (predicate_name p)) (text "NOT") ≡ false
unfolding same text
no_not (path_glob g) = refl
no_not (type_name t) = refl
no_not (name_glob g) = refl
no_not (has_key s) = refl
no_not (value_cmp o s) = refl
no_not (key_cmp o s) = refl
no_not (contains v) = refl
no_not (at_index i o s) = refl
no_not (size_cmp o n) = refl
