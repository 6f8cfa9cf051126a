-- ===== src/Query/Parse/Tokens.antt =====
-- `tokenize`. Every test of the loop is on an ASCII character, which is one byte, and all other
-- characters are copied whole: the loop runs over the bytes.
use alefsdb.Prelude.{
  ℕ, zero, suc, ◌==◌, Bool, not, ◌&&◌, ◌||◌, Option, none, some, List, [], ◌∷◌, ◌++◌, Result, ok,
  err, ◌>>=◌, leb, ltb, length, if◌then◌else◌,
}
use alefsdb.Prelude.Order.{ℤ}
use alefsdb.Bytes.{Bytes}
use alefsdb.Bytes.Decimal.{is_digit, parse_i64}

-- An `f64` by its bits.
pub data Tok : Type 0 where
  ident string_tok op : Bytes → Tok
  int_tok : ℤ → Tok
  float_tok : ℕ → Tok
  lparen rparen : Tok

-- The messages of `ParseError`, with what each prints.
pub data ParseError : Type 0 where
  unterminated_string : ParseError
  bad_float bad_int unexpected_char : Bytes → ParseError
  unexpected_token : Tok → ParseError
  expected_close : ParseError
  unknown_predicate bad_cmp : Bytes → ParseError
  expected_predicate expected_scalar expected_cmp expected_string expected_path expected_int :
      Option Tok → ParseError
  negative_index : ParseError
  -- only of the model
  out_of_fuel : ParseError

-- `text.parse::<f64>()`, as bits; none is an error.
abbrev pub ParseF64 : Type 0
ParseF64 = Bytes → Option ℕ

abbrev pub is_whitespace : ℕ → Bool
is_whitespace c = c == b' ' || c == b'\t' || c == b'\n' || c == 12 || c == b'\r'

abbrev pub is_alphabetic : ℕ → Bool
is_alphabetic c = (leb b'a' c && leb c b'z') || (leb b'A' c && leb c b'Z')

abbrev pub starts_ident : ℕ → Bool
starts_ident c = is_alphabetic c || c == b'_' || c == b'*' || c == b'?'

abbrev pub in_ident : ℕ → Bool
in_ident c =
    is_alphabetic c || is_digit c || c == b'_' || c == b'*' || c == b'?' || c == b'.' || c == b'-'

abbrev pub in_path : ℕ → Bool
in_path c = not (is_whitespace c || c == b'(' || c == b')')

-- The longest start whose bytes pass the test, and the rest.
unfoldable pub span : (ℕ → Bool) → Bytes → Bytes × Bytes
span test [] = ([], [])
span test (b ∷ bs) =
    let more = span test bs in if test b then (b ∷ more.0, more.1) else ([], b ∷ bs)

-- The inner loop of a string, behind its first quote.
unfoldable pub string_body : Bytes → Result ParseError (Bytes × Bytes)
string_body [] = err unterminated_string
string_body (b ∷ []) = if b == b'"' then ok ([], []) else err unterminated_string
string_body (b ∷ c ∷ cs) =
    let escaped = string_body cs in
    let more = string_body (c ∷ cs) in
    if b == b'"'
    then ok ([], c ∷ cs)
    else if b == b'\\'
    then (escaped >>= λ r. ok (c ∷ r.0, r.1))
    else (more >>= λ r. ok (b ∷ r.0, r.1))

-- A comparator takes a `=` that follows.
abbrev pub op_body : ℕ → Bytes → Tok × Bytes
op_body c [] = (op (c ∷ []), [])
op_body c (b ∷ bs) = if b == b'=' then (op (c ∷ b ∷ []), bs) else (op (c ∷ []), b ∷ bs)

abbrev pub int_of : Bytes → Option ℤ → Result ParseError Tok
int_of s none = err (bad_int s)
int_of s (some n) = ok (int_tok n)

abbrev pub float_of : Bytes → Option ℕ → Result ParseError Tok
float_of s none = err (bad_float s)
float_of s (some f) = ok (float_tok f)

-- A number, behind the sign or first digit `c`: digits, and more behind a point.
unfoldable pub number_body : ParseF64 → ℕ → Bytes × Bytes → Result ParseError (Tok × Bytes)
number_body parse_f64 c (ds, []) = int_of (c ∷ ds) (parse_i64 (c ∷ ds)) >>= λ t. ok (t, [])
number_body parse_f64 c (ds, b ∷ bs) =
    if b == b'.'
    then (let frac = span is_digit bs in
        let s = c ∷ (ds ++ b ∷ frac.0) in float_of s (parse_f64 s) >>= λ t. ok (t, frac.1))
    else (int_of (c ∷ ds) (parse_i64 (c ∷ ds)) >>= λ t. ok (t, b ∷ bs))

-- The bytes of the character that starts with `c`.
abbrev pub first_char : ℕ → Bytes → Bytes
first_char c bs = c ∷ (span (λ b. leb 128 b && ltb b 192) bs).0

-- A token that starts with `c`, which is no white space.
unfoldable pub token : ParseF64 → ℕ → Bytes → Result ParseError (Tok × Bytes)
token parse_f64 c bs =
    if c == b'('
    then ok (lparen, bs)
    else if c == b')'
    then ok (rparen, bs)
    else if c == b'"'
    then (string_body bs >>= λ r. ok (string_tok r.0, r.1))
    else if c == b'=' || c == b'!' || c == b'<' || c == b'>'
    then ok (op_body c bs)
    else if c == b'/'
    then (let r = span in_path bs in ok (ident (c ∷ r.0), r.1))
    else if c == b'-' || is_digit c
    then number_body parse_f64 c (span is_digit bs)
    else if starts_ident c
    then (let r = span in_ident bs in ok (ident (c ∷ r.0), r.1))
    else err (unexpected_char (first_char c bs))

-- The loop, on fuel: a round takes a byte at least.
unfoldable pub tokens : ParseF64 → ℕ → Bytes → Result ParseError (List Tok)
tokens parse_f64 zero bs = err out_of_fuel
tokens parse_f64 (suc f) [] = ok []
tokens parse_f64 (suc f) (c ∷ bs) =
    let blank = tokens parse_f64 f bs in
    if is_whitespace c
    then blank
    else (token parse_f64 c bs >>= λ r. tokens parse_f64 f r.1 >>= λ ts. ok (r.0 ∷ ts))

unfoldable pub tokenize : ParseF64 → Bytes → Result ParseError (List Tok)
tokenize parse_f64 input = tokens parse_f64 (suc (length input)) input
