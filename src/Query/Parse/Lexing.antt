-- ===== src/Query/Parse/Lexing.antt =====
-- The text of plain tokens against the loop of `tokenize`.
use alefsdb.Prelude.{
  ℕ, zero, suc, ◌-◌, ◌<◌, ◌≤◌, ◌≡◌, ◌≢◌, ◌==◌, refl, ◌∙◌, Bool, true, false, ◌&&◌, ◌||◌, some, List,
  [], ◌∷◌, ◌++◌, append_assoc, ok, ◌>>=◌, length, arith, All, Bool-cases, inl, inr, length-append,
}
use alefsdb.Prelude.Order.{ℤ, pos, negsuc}
use alefsdb.Bytes.{Bytes, text}
use alefsdb.Bytes.Decimal.{IsI64, is_digit, parse_i64, show_i64, show_nat}
use alefsdb.Bytes.Decimal.RoundTrip.{Digits, show_nat-Digits, show_nat-ne-nil, parse_i64-show_i64}
use alefsdb.Query.Ast.{CmpOp, eq_op, ne_op, lt_op, le_op, gt_op, ge_op}
use alefsdb.Query.Parse.Tokens.{
  Tok, ident, string_tok, op, int_tok, float_tok, lparen, rparen, ParseF64, is_whitespace,
  starts_ident, in_ident, span, string_body, number_body, token, tokens,
}
use alefsdb.Query.Parse.Print.{cmp_text}
use alefsdb.Query.Parse.Written.{needs_escape, escape, show_token, show_tokens, IsWord, IsPlain}

-- A span ends at the first byte that does not pass.
span-append :
    (test : ℕ → Bool) (xs : Bytes) (c : ℕ) (rest : Bytes)
    → All (λ b. test b ≡ true) xs
    → test c ≡ false
    → span test (xs ++ c ∷ rest) ≡ (xs, c ∷ rest)
unfolding span
span-append test [] c rest h e = rw e refl
span-append test (x ∷ xs) c rest h e = rw (h.0, span-append test xs c rest h.1 e) refl

-- A byte that needs no escape stands for itself.
string_body_plain :
    (b : ℕ) (bs : Bytes)
    → needs_escape b ≡ false
    → bs ≢ []
    → string_body (b ∷ bs) ≡ (string_body bs >>= λ r. ok (b ∷ r.0, r.1))
unfolding string_body
string_body_plain b [] h n = absurd (n refl)
string_body_plain b (c ∷ cs) h n =
    let q : (b == b'"') ≡ false = ground (arith, h) in
    let s : (b == b'\\') ≡ false = ground (arith, h) in rw (q, s) refl

append-ne-nil : (xs : Bytes) (c : ℕ) (ys : Bytes) → (xs ++ c ∷ ys) ≢ []
append-ne-nil [] c ys = cc
append-ne-nil (x ∷ xs) c ys = cc

string_body_escaped :
    (b : ℕ) (bs : Bytes)
    → string_body (b'\\' ∷ b ∷ bs) ≡ (string_body bs >>= λ r. ok (b ∷ r.0, r.1))
unfolding string_body
string_body_escaped b bs = refl

string_body-escape :
    (s : Bytes) (c : ℕ) (rest : Bytes)
    → string_body (escape s ++ b'"' ∷ c ∷ rest) ≡ ok (s, c ∷ rest)
unfolding escape
string_body-escape [] c rest = unfold string_body in refl
string_body-escape (b ∷ bs) c rest = elim (Bool-cases (needs_escape b)) [
  | inl e ↦ rw e (
      string_body_escaped b (escape bs ++ b'"' ∷ c ∷ rest) ∙ rw (string_body-escape bs c rest) refl)
  | inr e ↦ rw e (
      string_body_plain b (escape bs ++ b'"' ∷ c ∷ rest) e
        (append-ne-nil (escape bs) b'"' (c ∷ rest))
      ∙ rw (string_body-escape bs c rest) refl)
]

-- The bytes of a token, and how the loop reads them in front of a blank.
abbrev ReadAs : Tok → Bytes → Type 0
ReadAs t [] = ⊥
ReadAs t (c ∷ cs) =
    (is_whitespace c ≡ false)
    × ((parse_f64 : ParseF64) (rest : Bytes)
        → token parse_f64 c (cs ++ b' ' ∷ rest) ≡ ok (t, b' ' ∷ rest))

abbrev pub all : (ℕ → Bool) → Bytes → Bool
all test [] = true
all test (b ∷ bs) = test b && all test bs

abbrev pub is_word : Bytes → Bool
is_word [] = false
is_word (c ∷ cs) = starts_ident c && all in_ident cs

all-All : (test : ℕ → Bool) (bs : Bytes) → all test bs ≡ true → All (λ b. test b ≡ true) bs
all-All test [] h = tt
all-All test (b ∷ bs) h = elim (Bool-cases (test b)) [
  | inl e ↦ (e, all-All test bs (rw e at h))
  | inr e ↦ cc (rw e at h)
]

pub is_word-IsWord : (s : Bytes) → is_word s ≡ true → IsWord s
is_word-IsWord [] h = cc
is_word-IsWord (c ∷ cs) h = elim (Bool-cases (starts_ident c)) [
  | inl e ↦ (e, all-All in_ident cs (rw e at h))
  | inr e ↦ cc (rw e at h)
]

-- None of the tests on a first byte before the last one passes on a letter.
token_ident :
    (parse_f64 : ParseF64) (c : ℕ) (bs : Bytes)
    → starts_ident c ≡ true
    → token parse_f64 c bs ≡ ok (ident (c ∷ (span in_ident bs).0), (span in_ident bs).1)
unfolding token
token_ident pf c bs h =
    let a : (c == b'(') ≡ false = ground (arith, h) in
    let b : (c == b')') ≡ false = ground (arith, h) in
    let d : (c == b'"') ≡ false = ground (arith, h) in
    let e : (c == b'=' || c == b'!' || c == b'<' || c == b'>') ≡ false = ground (arith, h) in
    let f : (c == b'/') ≡ false = ground (arith, h) in
    let g : (c == b'-' || is_digit c) ≡ false = ground (arith, h) in rw (a, b, d, e, f, g, h) refl

read_word : (s : Bytes) → IsWord s → ReadAs (ident s) s
read_word [] h = h
read_word (c ∷ cs) h = (
  ground (arith, h.0),
  λ pf rest.
      token_ident pf c (cs ++ b' ' ∷ rest) h.0
      ∙ rw (span-append in_ident cs b' ' rest h.1 refl) refl,
)

token_number :
    (parse_f64 : ParseF64) (c : ℕ) (bs : Bytes)
    → (c == b'-' || is_digit c) ≡ true
    → token parse_f64 c bs ≡ number_body parse_f64 c (span is_digit bs)
unfolding token
token_number pf c bs h =
    let a : (c == b'(') ≡ false = ground (arith, h) in
    let b : (c == b')') ≡ false = ground (arith, h) in
    let d : (c == b'"') ≡ false = ground (arith, h) in
    let e : (c == b'=' || c == b'!' || c == b'<' || c == b'>') ≡ false = ground (arith, h) in
    let f : (c == b'/') ≡ false = ground (arith, h) in rw (a, b, d, e, f, h) refl

-- Digits behind a sign or a digit.
read_number :
    (c : ℕ) (cs : Bytes) (n : ℤ)
    → (c == b'-' || is_digit c) ≡ true
    → Digits cs
    → parse_i64 (c ∷ cs) ≡ some n
    → ReadAs (int_tok n) (c ∷ cs)
read_number c cs n h d e = (
  ground (arith, h),
  λ pf rest.
      token_number pf c (cs ++ b' ' ∷ rest) h
      ∙ rw (span-append is_digit cs b' ' rest d refl) (unfold number_body in rw e refl),
)

read_int : (n : ℤ) → IsI64 n → ReadAs (int_tok n) (show_i64 n)
unfolding show_i64
read_int (pos n) h =
    positive (show_nat n) (show_nat-ne-nil n) (show_nat-Digits n) (parse_i64-show_i64 (pos n) h)
  where
    positive :
        (bs : Bytes)
        → bs ≢ []
        → Digits bs
        → parse_i64 bs ≡ some (pos n)
        → ReadAs (int_tok (pos n)) bs
    positive [] m d e = absurd (m refl)
    positive (c ∷ cs) m d e = read_number c cs (pos n) (ground (arith, d.0)) d.1 e
read_int (negsuc n) h =
    read_number b'-' (show_nat (suc n)) (negsuc n) refl (show_nat-Digits (suc n))
      (parse_i64-show_i64 (negsuc n) h)

read_op : (o : CmpOp) → ReadAs (op (cmp_text o)) (cmp_text o)
unfolding token text
read_op eq_op = (refl, λ pf rest. refl)
read_op ne_op = (refl, λ pf rest. refl)
read_op lt_op = (refl, λ pf rest. refl)
read_op le_op = (refl, λ pf rest. refl)
read_op gt_op = (refl, λ pf rest. refl)
read_op ge_op = (refl, λ pf rest. refl)

read_token : (t : Tok) → IsPlain t → ReadAs t (show_token t)
unfolding show_token IsPlain
read_token (ident s) h = read_word s h
read_token (string_tok s) h = (
  refl,
  λ pf rest.
      rw (append_assoc (escape s) (b'"' ∷ []) (b' ' ∷ rest))
        (unfold token in rw (string_body-escape s b' ' rest) refl),
)
read_token (op s) (o, e) = rw e (read_op o)
read_token (int_tok n) h = read_int n h
read_token (float_tok f) h = absurd h
read_token lparen h = (refl, λ pf rest. unfold token in refl)
read_token rparen h = (refl, λ pf rest. unfold token in refl)

-- A round for a token and one for the blank behind it.
tokens_step :
    (parse_f64 : ParseF64) (f : ℕ) (t : Tok) (s rest : Bytes)
    → ReadAs t s
    → tokens parse_f64 (suc (suc f)) (s ++ b' ' ∷ rest)
      ≡ (tokens parse_f64 f rest >>= λ ts. ok (t ∷ ts))
unfolding tokens
tokens_step pf f t [] rest h = absurd h
tokens_step pf f t (c ∷ cs) rest (w, r) = rw (w, r pf rest) refl

show_ne_nil : (t : Tok) (s : Bytes) → ReadAs t s → 1 ≤ length s
show_ne_nil t [] h = absurd h
show_ne_nil t (c ∷ cs) h = omega arith

pub tokens-show_tokens :
    (parse_f64 : ParseF64) (ts : List Tok)
    → All IsPlain ts
    → (f : ℕ) → length (show_tokens ts) < f
    → tokens parse_f64 f (show_tokens ts) ≡ ok ts
unfolding show_tokens
tokens-show_tokens pf [] h zero l = absurd (omega arith)
tokens-show_tokens pf [] h (suc f) l = unfold tokens in refl
tokens-show_tokens pf (t ∷ ts) h f l =
    let r = read_token t h.0 in
    let n = show_ne_nil t (show_token t) r in
    let m = length-append (show_token t) (b' ' ∷ show_tokens ts) in
    let q : f ≡ suc (suc (f - 2)) = omega (arith, n, m, l) in
    rw
      (
        q,
        tokens_step pf (f - 2) t (show_token t) (show_tokens ts) r,
        tokens-show_tokens pf ts h.1 (f - 2) (omega (arith, n, m, l)),
      )
      refl
