-- ===== src/Fuse/Text.antt =====
-- The text of a scalar in a file, and its reading: `scalar_bytes` and `parse_scalar_text`
-- (crates/alefs-fuse/src/lib.rs). `trim`, and the text and the reading of a float, are parameters.
use alefsdb.Prelude.Order.{ℤ, pos, negsuc}
use alefsdb.Prelude.{
  ◌≤◌, ◌∙◌, suc, All, arith, ℕ, ◌≡◌, refl, true, false, Option, none, some, [], ◌∷◌, ◌||◌, ◌&&◌,
  leb, if◌then◌else◌, ap,
}
use alefsdb.Bytes.{Bytes, text, same, valid_utf8, valid_utf8-ascii}
use alefsdb.Bytes.Decimal.{IsI64, is_digit, parse_i64, show_i64, show_nat}
use alefsdb.Bytes.Decimal.RoundTrip.{parse_i64-show_i64, Digits, show_nat-Digits}
use alefsdb.Types.Value.{Scalar, null, bool, int, float, string, bytes}
use alefsdb.Namespace.Json.Print.{ShowF64}
use alefsdb.Query.Parse.Tokens.{ParseF64}

unfoldable pub scalar_bytes : ShowF64 → Scalar → Bytes
scalar_bytes show_f64 null = text "null"
scalar_bytes show_f64 (bool true) = text "true"
scalar_bytes show_f64 (bool false) = text "false"
scalar_bytes show_f64 (int n) = show_i64 n
scalar_bytes show_f64 (float f) = show_f64 f
scalar_bytes show_f64 (string s) = s
scalar_bytes show_f64 (bytes b) = b

unfoldable pub bool_of : Bytes → Option Scalar
bool_of s =
    if same s (text "true") || same s (text "1")
    then some (bool true)
    else if same s (text "false") || same s (text "0")
    then some (bool false)
    else none

unfoldable pub null_of : Bytes → Option Scalar
null_of s = if same s (text "null") || same s [] then some null else none

-- `from_utf8(data)`, and what is read of its text.
unfoldable pub of_text : (Bytes → Option Scalar) → Bytes → Option Scalar
of_text read d = if valid_utf8 d then read d else none

unfoldable pub int_of : Option ℤ → Option Scalar
int_of none = none
int_of (some n) = some (int n)

-- `from_f64` is part of the parameter.
unfoldable pub float_of : Option ℕ → Option Scalar
float_of none = none
float_of (some f) = some (float f)

unfoldable pub parse_scalar_text : ParseF64 → (Bytes → Bytes) → Scalar → Bytes → Option Scalar
parse_scalar_text parse_f64 trim (bytes b) d = some (bytes d)
parse_scalar_text parse_f64 trim (string s) d = of_text (λ t. some (string t)) d
parse_scalar_text parse_f64 trim (int n) d = of_text (λ t. int_of (parse_i64 (trim t))) d
parse_scalar_text parse_f64 trim (float f) d = of_text (λ t. float_of (parse_f64 (trim t))) d
parse_scalar_text parse_f64 trim (bool b) d = of_text (λ t. bool_of (trim t)) d
parse_scalar_text parse_f64 trim null d = of_text (λ t. null_of (trim t)) d

-- A visible ASCII character.
abbrev Visible : Bytes → Type 0
Visible = All (λ b. (leb 0x21 b && leb b 0x7e) ≡ true)

-- `trim` takes whitespace only.
abbrev pub Trims : (Bytes → Bytes) → Type 0
Trims trim = (d : Bytes) → Visible d → trim d ≡ d

-- The scalars whose text is read as them: a float's text is a parameter.
abbrev pub HasText : Scalar → Type 0
HasText null = Unit
HasText (bool b) = Unit
HasText (int n) = IsI64 n
HasText (float f) = ⊥
HasText (string s) = valid_utf8 s ≡ true
HasText (bytes b) = Unit

visible_digit : (b : ℕ) → is_digit b ≡ true → (leb 0x21 b && leb b 0x7e) ≡ true
visible_digit b h = ground (arith, h)

Digits-Visible : (d : Bytes) → Digits d → Visible d
Digits-Visible [] h = tt
Digits-Visible (b ∷ bs) h = (visible_digit b h.0, Digits-Visible bs h.1)

show_i64-Visible : (n : ℤ) → Visible (show_i64 n)
unfolding show_i64
show_i64-Visible (pos n) = Digits-Visible (show_nat n) (show_nat-Digits n)
show_i64-Visible (negsuc n) = (refl, Digits-Visible (show_nat (suc n)) (show_nat-Digits (suc n)))

Visible-ascii : (d : Bytes) → Visible d → All (λ b. b ≤ 0x7f) d
Visible-ascii [] h = tt
Visible-ascii (b ∷ bs) h = (ground (arith, h.0), Visible-ascii bs h.1)

module _ (parse_f64 : ParseF64) (show_f64 : ShowF64) (trim : Bytes → Bytes) (t : Trims trim) where
  of_text-Visible :
      (read : Bytes → Option Scalar) (d : Bytes)
      → Visible d
      → of_text (λ s. read (trim s)) d ≡ read d
  unfolding of_text
  of_text-Visible read d h = rw (valid_utf8-ascii d (Visible-ascii d h), t d h) refl

  -- A scalar that is no float is read back from its text, by the type that it has.
  pub parse_scalar_text-scalar_bytes :
      (s : Scalar)
      → HasText s
      → parse_scalar_text parse_f64 trim s (scalar_bytes show_f64 s) ≡ some s
  unfolding parse_scalar_text scalar_bytes of_text int_of text bool_of null_of same
  parse_scalar_text-scalar_bytes null h =
      of_text-Visible null_of (text "null") (refl, (refl, (refl, (refl, tt))))
  parse_scalar_text-scalar_bytes (bool true) h =
      of_text-Visible bool_of (text "true") (refl, (refl, (refl, (refl, tt))))
  parse_scalar_text-scalar_bytes (bool false) h =
      of_text-Visible bool_of (text "false") (refl, (refl, (refl, (refl, (refl, tt)))))
  parse_scalar_text-scalar_bytes (int n) h =
      of_text-Visible (λ s. int_of (parse_i64 s)) (show_i64 n) (show_i64-Visible n)
      ∙ ap int_of (parse_i64-show_i64 n h)
  parse_scalar_text-scalar_bytes (float f) h = absurd h
  parse_scalar_text-scalar_bytes (string s) h = rw h refl
  parse_scalar_text-scalar_bytes (bytes b) h = refl
