-- ===== src/Namespace/Json/Parse.antt =====
-- `JsonParser`. Its tests are on ASCII characters, so it runs over the bytes that are left,
-- `self.s[self.i..]`.
use alefsdb.Prelude.{
  ℕ, zero, suc, ◌+◌, ◌*◌, ◌==◌, true, false, ◌||◌, Option, none, some, [], ◌∷◌, ◌++◌, Result, ok,
  err, ◌>>=◌, length, drop, if◌then◌else◌,
}
use alefsdb.Prelude.Order.{ℤ}
use alefsdb.Bytes.{Bytes, text, starts_with}
use alefsdb.Bytes.Decimal.{is_digit, parse_i64}
use alefsdb.Query.Parse.Tokens.{ParseF64, is_whitespace, span, first_char}
use alefsdb.Namespace.Json.{
  JsonVal, json_null, json_bool, json_number, json_float, json_string, json_array, json_object,
  JsonItems, no_json_items, json_item, JsonFields, no_json_fields, json_field, JsonError,
  trailing_junk, unexpected_eof, expected_null, expected_bool, expected_string, bad_escape,
  unterminated_string, bad_float, bad_int, expected_array_end, expected_colon, expected_object_end,
  unexpected, out_of_fuel,
}

unfoldable pub skip_ws : Bytes → Bytes
skip_ws [] = []
skip_ws (c ∷ cs) = let rest = skip_ws cs in if is_whitespace c then rest else c ∷ cs

unfoldable pub parse_null : Bytes → Result JsonError (JsonVal × Bytes)
parse_null s = if starts_with (text "null") s then ok (json_null, drop 4 s) else err expected_null

unfoldable pub parse_bool : Bytes → Result JsonError (JsonVal × Bytes)
parse_bool s =
    if starts_with (text "true") s
    then ok (json_bool true, drop 4 s)
    else if starts_with (text "false") s
    then ok (json_bool false, drop 5 s)
    else err expected_bool

-- What an escaped byte stands for.
unfoldable pub escaped : ℕ → ℕ
escaped c = if c == b'n' then b'\n' else if c == b't' then b'\t' else c

-- The loop of `parse_string`, behind the first quote.
unfoldable pub string_rest : Bytes → Result JsonError (Bytes × Bytes)
string_rest [] = err unterminated_string
string_rest (c ∷ []) =
    if c == b'"'
    then ok ([], [])
    else if c == b'\\'
    then err bad_escape
    else err unterminated_string
string_rest (c ∷ d ∷ cs) =
    let behind = string_rest cs in
    let more = string_rest (d ∷ cs) in
    if c == b'"'
    then ok ([], d ∷ cs)
    else if c == b'\\'
    then (behind >>= λ r. ok (escaped d ∷ r.0, r.1))
    else (more >>= λ r. ok (c ∷ r.0, r.1))

unfoldable pub parse_string : Bytes → Result JsonError (Bytes × Bytes)
parse_string [] = err expected_string
parse_string (c ∷ cs) = if c == b'"' then string_rest cs else err expected_string

unfoldable pub number_of : Option ℤ → Result JsonError JsonVal
number_of none = err bad_int
number_of (some n) = ok (json_number n)

unfoldable pub float_of : Option ℕ → Result JsonError JsonVal
float_of none = err bad_float
float_of (some f) = ok (json_float f)

-- `parse_number` from its first byte, with the digits behind it and the rest.
unfoldable pub parse_number : ParseF64 → ℕ → Bytes × Bytes → Result JsonError (JsonVal × Bytes)
parse_number parse_f64 c (ds, []) = number_of (parse_i64 (c ∷ ds)) >>= λ v. ok (v, [])
parse_number parse_f64 c (ds, b ∷ bs) =
    if b == b'.'
    then (let frac = span is_digit bs in
        float_of (parse_f64 (c ∷ (ds ++ b ∷ frac.0))) >>= λ v. ok (v, frac.1))
    else (number_of (parse_i64 (c ∷ ds)) >>= λ v. ok (v, b ∷ bs))

unfoldable pub expect_colon : Bytes → Result JsonError Bytes
expect_colon [] = err expected_colon
expect_colon (c ∷ cs) = if c == b':' then ok cs else err expected_colon

abbrev pub Parser : Type 0 → Type 0
Parser A = Bytes → Result JsonError (A × Bytes)

-- `parse_array` and `parse_object` behind their bracket, with the loop that follows.
unfoldable pub array_at : Parser JsonItems → Parser JsonItems
array_at loop [] = loop []
array_at loop (c ∷ cs) = if c == b']' then ok (no_json_items, cs) else loop (c ∷ cs)

unfoldable pub object_at : Parser JsonFields → Parser JsonFields
object_at loop [] = loop []
object_at loop (c ∷ cs) = if c == b'}' then ok (no_json_fields, cs) else loop (c ∷ cs)

-- The `match` on the first character.
unfoldable pub value_at : ParseF64 → Parser JsonItems → Parser JsonFields → Parser JsonVal
value_at parse_f64 items fields [] = err unexpected_eof
value_at parse_f64 items fields (c ∷ cs) =
    if c == b'n'
    then parse_null (c ∷ cs)
    else if c == b't' || c == b'f'
    then parse_bool (c ∷ cs)
    else if c == b'"'
    then (parse_string (c ∷ cs) >>= λ r. ok (json_string r.0, r.1))
    else if c == b'['
    then (array_at items (skip_ws cs) >>= λ r. ok (json_array r.0, r.1))
    else if c == b'{'
    then (object_at fields (skip_ws cs) >>= λ r. ok (json_object r.0, r.1))
    else if c == b'-' || is_digit c
    then parse_number parse_f64 c (span is_digit cs)
    else err (unexpected (first_char c cs))

-- Behind an item or a field: a comma and the loop again, or the bracket.
unfoldable pub after_item : Parser JsonItems → JsonVal → Parser JsonItems
after_item loop v [] = err expected_array_end
after_item loop v (c ∷ cs) =
    if c == b','
    then (loop cs >>= λ r. ok (json_item v r.0, r.1))
    else if c == b']'
    then ok (json_item v no_json_items, cs)
    else err expected_array_end

unfoldable pub after_field : Parser JsonFields → Bytes → JsonVal → Parser JsonFields
after_field loop k v [] = err expected_object_end
after_field loop k v (c ∷ cs) =
    if c == b','
    then (loop cs >>= λ r. ok (json_field k v r.0, r.1))
    else if c == b'}'
    then ok (json_field k v no_json_fields, cs)
    else err expected_object_end

-- The key of a field, with its colon.
unfoldable pub parse_key : Parser Bytes
parse_key s = do (key, r) ← parse_string (skip_ws s); t ← expect_colon (skip_ws r); ok (key, t)

-- The recursive descent, on fuel: a unit for each value and each round of a loop.
module _ (parse_f64 : ParseF64) where
  unfoldable mutual
    pub parse_value : ℕ → Bytes → Result JsonError (JsonVal × Bytes)
    parse_value zero s = err out_of_fuel
    parse_value (suc f) s = value_at parse_f64 (array_loop f) (object_loop f) (skip_ws s)

    pub array_loop : ℕ → Bytes → Result JsonError (JsonItems × Bytes)
    array_loop zero s = err out_of_fuel
    array_loop (suc f) s = parse_value f s >>= λ r. after_item (array_loop f) r.0 (skip_ws r.1)

    pub object_loop : ℕ → Bytes → Result JsonError (JsonFields × Bytes)
    object_loop zero s = err out_of_fuel
    object_loop (suc f) s = parse_key s >>= λ k.
        parse_value f k.1 >>= λ r. after_field (object_loop f) k.0 r.0 (skip_ws r.1)

  -- Nothing but white space may be left.
  unfoldable pub whole : JsonVal × Bytes → Result JsonError JsonVal
  whole (v, r) = if length (skip_ws r) == 0 then ok v else err trailing_junk

  unfoldable pub parse_json_value : Bytes → Result JsonError JsonVal
  parse_json_value s = parse_value (2 * length s + 2) s >>= whole
