-- ===== src/Namespace/Json/Strings.antt =====
-- The text of strings, keys and numbers against its reader.
use alefsdb.Prelude.{
  ℕ, suc, ◌≡◌, ◌≢◌, ◌==◌, refl, true, false, ◌||◌, some, [], ◌∷◌, ◌++◌, append_assoc, ok, ◌>>=◌,
  Bool-cases, inl, inr, arith,
}
use alefsdb.Prelude.Order.{ℤ, pos, negsuc}
use alefsdb.Bytes.{Bytes}
use alefsdb.Bytes.Decimal.{is_digit, parse_i64, show_i64, show_nat, IsI64}
use alefsdb.Bytes.Decimal.RoundTrip.{Digits, show_nat-Digits, show_nat-ne-nil, parse_i64-show_i64}
use alefsdb.Query.Parse.Tokens.{ParseF64, is_whitespace, span}
use alefsdb.Namespace.Json.{JsonItems, JsonFields, json_number}
use alefsdb.Namespace.Json.Print.{escape, json_str}
use alefsdb.Namespace.Json.Parse.{
  skip_ws, escaped, string_rest, parse_string, parse_number, number_of, expect_colon, parse_key,
  value_at, Parser,
}

string_rest_plain :
    (b : ℕ) (bs : Bytes)
    → (b == b'"') ≡ false
    → (b == b'\\') ≡ false
    → bs ≢ []
    → string_rest (b ∷ bs) ≡ (string_rest bs >>= λ r. ok (b ∷ r.0, r.1))
unfolding string_rest
string_rest_plain b [] h k n = absurd (n refl)
string_rest_plain b (c ∷ cs) h k n = rw (h, k) refl

string_rest_escaped :
    (b : ℕ) (bs : Bytes)
    → (b == b'"' || b == b'\\') ≡ true
    → string_rest (b'\\' ∷ b ∷ bs) ≡ (string_rest bs >>= λ r. ok (b ∷ r.0, r.1))
unfolding string_rest escaped
string_rest_escaped b bs h =
    let n : (b == b'n') ≡ false = ground (arith, h) in
    let t : (b == b't') ≡ false = ground (arith, h) in rw (n, t) refl

append-ne-nil : (xs : Bytes) (c : ℕ) (ys : Bytes) → (xs ++ c ∷ ys) ≢ []
append-ne-nil [] c ys = cc
append-ne-nil (x ∷ xs) c ys = cc

string_rest_end : (rest : Bytes) → string_rest (b'"' ∷ rest) ≡ ok ([], rest)
unfolding string_rest
string_rest_end [] = refl
string_rest_end (c ∷ cs) = refl

string_rest-escape : (s rest : Bytes) → string_rest (escape s ++ b'"' ∷ rest) ≡ ok (s, rest)
unfolding escape
string_rest-escape [] rest = string_rest_end rest
string_rest-escape (b ∷ bs) rest = elim (Bool-cases (b == b'\\')) [
  | inl e ↦
      let z : b ≡ b'\\' = ground (arith, e) in
      rw (z, string_rest_escaped b'\\' (escape bs ++ b'"' ∷ rest) refl, string_rest-escape bs rest)
        refl
  | inr e ↦ elim (Bool-cases (b == b'"')) [
    | inl q ↦
        let z : b ≡ b'"' = ground (arith, q) in
        rw (z, string_rest_escaped b'"' (escape bs ++ b'"' ∷ rest) refl, string_rest-escape bs rest)
          refl
    | inr q ↦
        rw
          (
            e,
            q,
            string_rest_plain b (escape bs ++ b'"' ∷ rest) q e
                (append-ne-nil (escape bs) b'"' rest),
            string_rest-escape bs rest,
          )
          refl
  ]
]

pub parse_string-json_str : (s rest : Bytes) → parse_string (json_str s ++ rest) ≡ ok (s, rest)
unfolding parse_string json_str
parse_string-json_str s rest =
    rw (append_assoc (escape s) (b'"' ∷ []) rest) (string_rest-escape s rest)

pub skip_ws-json_str : (s rest : Bytes) → skip_ws (json_str s ++ rest) ≡ json_str s ++ rest
unfolding skip_ws json_str
skip_ws-json_str s rest = refl

-- A key with its colon.
pub parse_key-json_str : (s rest : Bytes) → parse_key (json_str s ++ b':' ∷ rest) ≡ ok (s, rest)
unfolding parse_key skip_ws expect_colon
parse_key-json_str s rest =
    rw (skip_ws-json_str s (b':' ∷ rest), parse_string-json_str s (b':' ∷ rest)) refl

-- What may stand behind a value: nothing, a comma or a bracket that closes.
abbrev pub Ends : Bytes → Type 0
Ends [] = Unit {0}
Ends (c ∷ cs) = (c == b',' || c == b']' || c == b'}') ≡ true

span-Ends : (ds rest : Bytes) → Digits ds → Ends rest → span is_digit (ds ++ rest) ≡ (ds, rest)
unfolding span
span-Ends [] [] d e = refl
span-Ends [] (c ∷ cs) d e = let n : is_digit c ≡ false = ground (arith, e) in rw n refl
span-Ends (x ∷ xs) rest (h, d) e = rw (h, span-Ends xs rest d e) refl

parse_number-Ends :
    (pf : ParseF64) (c : ℕ) (ds rest : Bytes) (n : ℤ)
    → parse_i64 (c ∷ ds) ≡ some n
    → Ends rest
    → parse_number pf c (ds, rest) ≡ ok (json_number n, rest)
unfolding parse_number number_of
parse_number-Ends pf c ds [] n h e = rw h refl
parse_number-Ends pf c ds (b ∷ bs) n h e =
    let q : (b == b'.') ≡ false = ground (arith, e) in rw (q, h) refl

-- A first byte of a number is none of the others.
at_number :
    (pf : ParseF64) (xs : Parser JsonItems) (ms : Parser JsonFields) (c : ℕ) (cs : Bytes)
    → (c == b'-' || is_digit c) ≡ true
    → value_at pf xs ms (c ∷ cs) ≡ parse_number pf c (span is_digit cs)
unfolding value_at
at_number pf xs ms c cs h =
    let a : (c == b'n') ≡ false = ground (arith, h) in
    let b : (c == b't' || c == b'f') ≡ false = ground (arith, h) in
    let d : (c == b'"') ≡ false = ground (arith, h) in
    let e : (c == b'[') ≡ false = ground (arith, h) in
    let f : (c == b'{') ≡ false = ground (arith, h) in rw (a, b, d, e, f, h) refl

skip_ws_number : (c : ℕ) (cs : Bytes) → (c == b'-' || is_digit c) ≡ true → skip_ws (c ∷ cs) ≡ c ∷ cs
unfolding skip_ws
skip_ws_number c cs h = let w : is_whitespace c ≡ false = ground (arith, h) in rw w refl

-- An integer's text is a sign or a digit, and digits.
pub show_i64_head :
    (n : ℤ)
    → (c : ℕ) × (ds : Bytes) × (show_i64 n ≡ c ∷ ds)
      × ((c == b'-' || is_digit c) ≡ true)
      × Digits ds
unfolding show_i64
show_i64_head (pos n) = go (show_nat n) (show_nat-ne-nil n) (show_nat-Digits n)
  where
    go :
        (bs : Bytes)
        → bs ≢ []
        → Digits bs
        → (c : ℕ) × (ds : Bytes) × (bs ≡ c ∷ ds) × ((c == b'-' || is_digit c) ≡ true) × Digits ds
    go [] m d = absurd (m refl)
    go (c ∷ cs) m d = (c, cs, refl, ground (arith, d.0), d.1)
show_i64_head (negsuc n) = (b'-', show_nat (suc n), refl, refl, show_nat-Digits (suc n))

-- An integer is read back from its text.
pub int_back :
    (pf : ParseF64) (xs : Parser JsonItems) (ms : Parser JsonFields) (n : ℤ) (rest : Bytes)
    → IsI64 n
    → Ends rest
    → value_at pf xs ms (skip_ws (show_i64 n ++ rest)) ≡ ok (json_number n, rest)
int_back pf xs ms n rest h e =
    let (c, ds, q, t, d) = show_i64_head n in
    rw
      (
        q,
        skip_ws_number c (ds ++ rest) t,
        at_number pf xs ms c (ds ++ rest) t,
        span-Ends ds rest d e,
      )
      (parse_number-Ends pf c ds rest n (rw q at (parse_i64-show_i64 n h)) e)
