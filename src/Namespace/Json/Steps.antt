-- ===== src/Namespace/Json/Steps.antt =====
-- The descent at a blank, at a bracket, and at the text of a field.
use alefsdb.Prelude.{
  ℕ, zero, suc, ◌≡◌, ◌==◌, refl, ◌∙◌, Bool, true, false, not, ◌||◌, [], ◌∷◌, ◌++◌, ok, ◌>>=◌, arith,
}
use alefsdb.Bytes.{Bytes}
use alefsdb.Query.Parse.Tokens.{ParseF64, is_whitespace}
use alefsdb.Namespace.Json.{JsonVal, JsonItems, JsonFields, json_string, json_array, json_object}
use alefsdb.Namespace.Json.Print.{json_str}
use alefsdb.Namespace.Json.Parse.{
  skip_ws, parse_string, parse_key, value_at, Parser, array_at, object_at, after_field, parse_value,
  array_loop, object_loop,
}
use alefsdb.Namespace.Json.Portable.{wrap}
use alefsdb.Namespace.Json.Strings.{parse_string-json_str, parse_key-json_str, skip_ws-json_str}

-- The first byte of a value: no white space and no bracket that closes.
abbrev pub is_first : ℕ → Bool
is_first c = not (is_whitespace c || c == b']')

abbrev pub Starts : Bytes → Type 0
Starts [] = ⊥
Starts (c ∷ cs) = is_first c ≡ true

pub array_at-Starts :
    (loop : Parser JsonItems) (t r : Bytes)
    → Starts t
    → array_at loop (skip_ws (t ++ r)) ≡ loop (t ++ r)
unfolding array_at skip_ws
array_at-Starts loop [] r h = absurd h
array_at-Starts loop (c ∷ cs) r h =
    let w : is_whitespace c ≡ false = ground (arith, h) in
    let b : (c == b']') ≡ false = ground (arith, h) in rw (w, b) refl

pub object_at-json_str :
    (loop : Parser JsonFields) (k r : Bytes)
    → object_at loop (skip_ws (json_str k ++ r)) ≡ loop (json_str k ++ r)
unfolding object_at skip_ws json_str
object_at-json_str loop k r = refl

module _ (pf : ParseF64) where
  pub parse_value_blank : (f : ℕ) (s : Bytes) → parse_value pf f (b' ' ∷ s) ≡ parse_value pf f s
  unfolding parse_value skip_ws
  parse_value_blank zero s = refl
  parse_value_blank (suc f) s = refl

  pub array_loop_blank : (f : ℕ) (s : Bytes) → array_loop pf f (b' ' ∷ s) ≡ array_loop pf f s
  unfolding array_loop
  array_loop_blank zero s = refl
  array_loop_blank (suc f) s = rw (parse_value_blank f s) refl

  pub object_loop_blank : (f : ℕ) (s : Bytes) → object_loop pf f (b' ' ∷ s) ≡ object_loop pf f s
  unfolding object_loop parse_key skip_ws
  object_loop_blank zero s = refl
  object_loop_blank (suc f) s = refl

  pub string_back :
      (f : ℕ) (s rest : Bytes)
      → parse_value pf (suc f) (json_str s ++ rest) ≡ ok (json_string s, rest)
  unfolding parse_value
  string_back f s rest =
      rw (skip_ws-json_str s rest) (at_quote ∙ rw (parse_string-json_str s rest) refl)
    where
      at_quote :
          value_at pf (array_loop pf f) (object_loop pf f) (json_str s ++ rest)
          ≡ (parse_string (json_str s ++ rest) >>= λ r. ok (json_string r.0, r.1))
      at_quote = unfold value_at json_str in refl

  pub at_bracket :
      (f : ℕ) (s : Bytes)
      → parse_value pf (suc f) (b'[' ∷ s)
        ≡ (array_at (array_loop pf f) (skip_ws s) >>= λ r. ok (json_array r.0, r.1))
  unfolding parse_value value_at skip_ws
  at_bracket f s = refl

  pub at_brace :
      (f : ℕ) (s : Bytes)
      → parse_value pf (suc f) (b'{' ∷ s)
        ≡ (object_at (object_loop pf f) (skip_ws s) >>= λ r. ok (json_object r.0, r.1))
  unfolding parse_value value_at skip_ws
  at_brace f s = refl

  -- A field whose value is read up to `x`.
  pub object_loop-field :
      (f : ℕ) (k t x : Bytes) (v : JsonVal)
      → parse_value pf f t ≡ ok (v, x)
      → object_loop pf (suc f) (json_str k ++ b':' ∷ t)
        ≡ after_field (object_loop pf f) k v (skip_ws x)
  unfolding object_loop
  object_loop-field f k t x v h = rw (parse_key-json_str k t, h) refl

  -- An object of one field.
  pub wrap_back :
      (f : ℕ) (k t rest : Bytes) (v : JsonVal)
      → parse_value pf f t ≡ ok (v, b'}' ∷ rest)
      → parse_value pf (suc (suc f)) (b'{' ∷ (json_str k ++ b':' ∷ t)) ≡ ok (wrap k v, rest)
  wrap_back f k t rest v h =
      rw
        (
          at_brace (suc f) (json_str k ++ b':' ∷ t),
          object_at-json_str (object_loop pf (suc f)) k (b':' ∷ t),
          object_loop-field f k t (b'}' ∷ rest) v h,
        )
        (unfold after_field skip_ws in refl)
