-- ===== src/Query/Parse/Termination.antt =====
-- The fuel of the loop of `tokenize`.
pub mod Predicates
pub mod Descent
use alefsdb.Prelude.{
  ℕ, zero, suc, ◌+◌, ◌*◌, ◌<◌, ◌≤◌, ◌≡◌, ◌≢◌, ◌==◌, refl, Bool, true, false, ◌||◌, Option, none,
  some, List, [], ◌∷◌, Result, ok, err, ◌>>=◌, length, arith, if◌then◌else◌, ltb, leb, ◌&&◌, ◌++◌,
}
use alefsdb.Prelude.Order.{ℤ, pos, negsuc}
use alefsdb.Bytes.{Bytes, text, same, starts_with}
use alefsdb.Bytes.Decimal.{is_digit, parse_i64}
use alefsdb.Types.Value.{Scalar}
use alefsdb.Query.Ast.{CmpOp, Predicate, Expr}
use alefsdb.Query.Parse.Tokens.{
  Tok, ident, string_tok, op, int_tok, float_tok, lparen, rparen, ParseError, out_of_fuel, ParseF64,
  span, string_body, op_body, int_of, float_of, number_body, token, tokens, tokenize, is_whitespace,
  starts_ident, in_path, in_ident,
}
use alefsdb.Query.Parse.Parser.{
  parse_scalar_value, cmp_of, expect_cmp, parse_cmp_scalar, expect_string_like,
  expect_path_or_string, expect_int, index_of, expect_uint, predicate_of, parse_predicate, close,
  is_joint, join_expr, parse_expr, parse_joints, parse_term, parse_primary, enough, parse_tokens,
  parse_query, all_read,
}

-- A result that did not run out of fuel, and left at most `n` items.
pub data Within {ℓ κ} {A : Type ℓ} {X : Type κ} (n : ℕ)
    : Result ParseError (A × List X) → Type (ℓ ⊔ κ) where
  failed : (e : ParseError) → e ≢ out_of_fuel → Within n (err e)
  left_over : (a : A) (rest : List X) → length rest ≤ n → Within n (ok (a, rest))

pub Within-bind {ℓ κ ℓ' κ'} :
    {A : Type ℓ} {X : Type κ} {B : Type ℓ'} {Y : Type κ'} (n m : ℕ)
    {r : Result ParseError (A × List X)} (k : A × List X → Result ParseError (B × List Y))
    → Within n r
    → ((a : A) (rest : List X) → length rest ≤ n → Within m (k (a, rest)))
    → Within m (r >>= k)
Within-bind n m k (failed e h) c = failed e h
Within-bind n m k (left_over a rest l) c = c a rest l

pub Within-if {ℓ κ} :
    {A : Type ℓ} {X : Type κ} {n : ℕ} (b : Bool) {r s : Result ParseError (A × List X)}
    → Within n r
    → Within n s
    → Within n (if b then r else s)
Within-if true hr hs = hr
Within-if false hr hs = hs

pub Within-elim {ℓ κ} :
    {A : Type ℓ} {X : Type κ} {n : ℕ} (b : Bool) {r s : Result ParseError (A × List X)}
    → Within n r
    → Within n s
    → Within n (elim b [ true ↦ r | false ↦ s ])
Within-elim true hr hs = hr
Within-elim false hr hs = hs

pub Within-le {ℓ κ} :
    {A : Type ℓ} {X : Type κ} (n m : ℕ) {r : Result ParseError (A × List X)}
    → n ≤ m
    → Within n r
    → Within m r
Within-le n m l (failed e h) = failed e h
Within-le n m l (left_over a rest h) = left_over a rest (omega (arith, l, h))

length-span : (test : ℕ → Bool) (bs : Bytes) → length (span test bs).1 ≤ length bs
unfolding span
length-span test [] = omega arith
length-span test (b ∷ bs) = grind (arith, length-span test bs)

Within-string_body : (bs : Bytes) → Within (length bs) (string_body bs)
unfolding string_body
Within-string_body [] = failed _ (cc)
Within-string_body (b ∷ []) = Within-if (b == b'"') (left_over _ _ (omega arith)) (failed _ (cc))
Within-string_body (b ∷ c ∷ cs) = Within-if (b == b'"') (left_over _ _ (omega arith)) (
    Within-if (b == b'\\')
      (Within-bind (length cs) _ _ (Within-string_body cs)
        (λ s rest l. left_over _ _ (omega (arith, l))))
      (Within-bind (suc (length cs)) _ _ (Within-string_body (c ∷ cs))
        (λ s rest l. left_over _ _ (omega (arith, l)))))

-- A token in front of the rest, or an error of the number's text.
Within-int :
    (s : Bytes) (o : Option ℤ) (rest : Bytes)
    → Within (length rest) (int_of s o >>= λ t. ok (t, rest))
Within-int s none rest = failed _ (cc)
Within-int s (some n) rest = left_over _ _ (omega arith)

Within-float :
    (s : Bytes) (o : Option ℕ) (rest : Bytes)
    → Within (length rest) (float_of s o >>= λ t. ok (t, rest))
Within-float s none rest = failed _ (cc)
Within-float s (some n) rest = left_over _ _ (omega arith)

Within-number_body :
    (pf : ParseF64) (c : ℕ) (ds rest : Bytes) → Within (length rest) (number_body pf c (ds, rest))
unfolding number_body
Within-number_body pf c ds [] = Within-int (c ∷ ds) (parse_i64 (c ∷ ds)) []
Within-number_body pf c ds (b ∷ bs) =
    Within-if (b == b'.')
      (Within-le (length (span is_digit bs).1) _ (omega (arith, length-span is_digit bs)) (
        Within-float (c ∷ (ds ++ b ∷ (span is_digit bs).0))
          (pf (c ∷ (ds ++ b ∷ (span is_digit bs).0))) (span is_digit bs).1))
      (Within-int (c ∷ ds) (parse_i64 (c ∷ ds)) (b ∷ bs))

Within-op_body : (c : ℕ) (bs : Bytes) → Within (length bs) (ok (op_body c bs))
Within-op_body c [] = left_over _ _ (omega arith)
Within-op_body c (b ∷ bs) =
    elim (b == b'=')
      as (λ t.
        Within (suc (length bs))
          (ok (if t then (op (c ∷ b ∷ []), bs) else (op (c ∷ []), b ∷ bs)))) [
            | true ↦ left_over _ _ (omega arith)
            | false ↦ left_over _ _ (omega arith)
          ]

Within-token : (pf : ParseF64) (c : ℕ) (bs : Bytes) → Within (length bs) (token pf c bs)
unfolding token
Within-token pf c bs = Within-if (c == b'(') (left_over _ _ (omega arith)) (
    Within-if (c == b')') (left_over _ _ (omega arith)) (
      Within-if (c == b'"')
        (Within-bind (length bs) _ _ (Within-string_body bs) (λ s rest l. left_over _ _ l))
        (Within-if (c == b'=' || c == b'!' || c == b'<' || c == b'>') (Within-op_body c bs) (
          Within-if (c == b'/') (left_over _ _ (length-span in_path bs)) (
            Within-if (c == b'-' || is_digit c)
              (Within-le (length (span is_digit bs).1) _ (length-span is_digit bs)
                (Within-number_body pf c (span is_digit bs).0 (span is_digit bs).1))
              (Within-if (starts_ident c) (left_over _ _ (length-span in_ident bs))
                (failed _ (cc))))))))

-- A result that did not run out of fuel.
abbrev pub Finishes {ℓ} : {A : Type ℓ} → Result ParseError A → Type ℓ
Finishes r = r ≢ err out_of_fuel

pub Finishes-bind {ℓ κ κ'} :
    {A : Type ℓ} {X : Type κ} {B : Type κ'} (n : ℕ) {r : Result ParseError (A × List X)}
    (k : A × List X → Result ParseError B)
    → Within n r
    → ((a : A) (rest : List X) → length rest ≤ n → Finishes (k (a, rest)))
    → Finishes (r >>= k)
Finishes-bind n k (failed e h) c = λ q. h (cc)
Finishes-bind n k (left_over a rest l) c = c a rest l

pub Finishes-ok {ℓ κ} :
    {A : Type ℓ} {B : Type κ} (r : Result ParseError A) (g : A → B)
    → Finishes r
    → Finishes (r >>= λ a. ok (g a))
Finishes-ok (err e) g h = λ q. h (cc)
Finishes-ok (ok a) g h = cc

pub Finishes-if {ℓ} :
    {A : Type ℓ} (b : Bool) {r s : Result ParseError A}
    → Finishes r
    → Finishes s
    → Finishes (if b then r else s)
Finishes-if true hr hs = hr
Finishes-if false hr hs = hs

pub tokens-Finishes :
    (pf : ParseF64) (f : ℕ) (bs : Bytes) → length bs < f → Finishes (tokens pf f bs)
unfolding tokens
tokens-Finishes pf zero bs l = absurd (omega arith)
tokens-Finishes pf (suc f) [] l = cc
tokens-Finishes pf (suc f) (c ∷ bs) l =
    Finishes-if (is_whitespace c) (tokens-Finishes pf f bs (omega arith)) (
      Finishes-bind (length bs) _ (Within-token pf c bs) (λ t rest m.
        Finishes-ok _ (λ ts. t ∷ ts) (tokens-Finishes pf f rest (omega (arith, l, m)))))
