-- ===== src/Namespace/Json/Back.antt =====
-- `json_to_value` against the JSON of a portable value.
use alefsdb.Prelude.{
  ℕ, ◌<◌, ◌==◌, ◌||◌, ◌≡◌, refl, true, false, some, [], ◌∷◌, ◌++◌, ok, All, append-nil,
  append_assoc, arith,
}
use alefsdb.Prelude.Order.{ℤ, nat_ord, list_ord}
use alefsdb.Prelude.OrdMap.{OrdMap, Sorted, insert-eq-append}
use alefsdb.Bytes.{Bytes, text, same, starts_with}
use alefsdb.Bytes.Decimal.{IsI64, is_digit, parse_i64, show_i64}
use alefsdb.Bytes.Decimal.RoundTrip.{parse_i64-show_i64}
use alefsdb.Types.Value.{
  Scalar, null, bool, int, float, string, bytes, Value, scalar, hash, set, list, tree, Items,
  no_items, item, Fields, no_fields, field, Entries, no_entries, entry, fields, entries,
  of_fields-fields, of_entries-entries,
}
use alefsdb.Types.Value.Order.{scalar_ord}
use alefsdb.Query.Parse.Tokens.{ParseF64}
use alefsdb.Namespace.Json.Hex.{encode_bytes, decode_bytes-encode_bytes}
use alefsdb.Namespace.Json.Print.{ShowF64, scalar_key_str, bool_text}
use alefsdb.Namespace.Json.Convert.{
  bytes_of, int_or_string, parse_scalar_key, json_to_value, json_to_items, hash_from, tree_from,
}
use alefsdb.Namespace.Json.Strings.{show_i64_head}
use alefsdb.Namespace.Json.Portable.{
  as_json, items_as_json, fields_as_json, entries_as_json, IsPortable, PortableItems,
  PortableFields, PortableEntries, IsPortableKey,
}

bytes_of-encode_bytes :
    (b : Bytes) → All (λ x. x < 256) b → bytes_of (encode_bytes b) ≡ ok (bytes b)
unfolding bytes_of
bytes_of-encode_bytes b h = rw (decode_bytes-encode_bytes b h) refl

number_key :
    (pf : ParseF64) (c : ℕ) (ds : Bytes) (n : ℤ)
    → (c == b'-' || is_digit c) ≡ true
    → parse_i64 (c ∷ ds) ≡ some n
    → parse_scalar_key pf (c ∷ ds) ≡ ok (int n)
unfolding parse_scalar_key int_or_string same text starts_with
number_key pf c ds n t p =
    let a : (c == b'n') ≡ false = ground (arith, t) in
    let b : (c == b't') ≡ false = ground (arith, t) in
    let d : (c == b'f') ≡ false = ground (arith, t) in
    let e : (b'f' == c) ≡ false = ground (arith, t) in
    let f : (b'b' == c) ≡ false = ground (arith, t) in rw (a, b, d, e, f, p) refl

-- An integer's text is none of the words and has neither prefix.
int_key : (pf : ParseF64) (n : ℤ) → IsI64 n → parse_scalar_key pf (show_i64 n) ≡ ok (int n)
int_key pf n h =
    let (c, ds, q, t, d) = show_i64_head n in
    rw q (number_key pf c ds n t (rw q at (parse_i64-show_i64 n h)))

key_back :
    (sf : ShowF64) (pf : ParseF64) (k : Scalar)
    → IsPortableKey k
    → parse_scalar_key pf (scalar_key_str sf k) ≡ ok k
unfolding scalar_key_str
key_back sf pf null h = unfold parse_scalar_key same text in refl
key_back sf pf (bool true) h = unfold parse_scalar_key bool_text same text in refl
key_back sf pf (bool false) h = unfold parse_scalar_key bool_text same text in refl
key_back sf pf (int n) h = int_key pf n h
key_back sf pf (float f) h = absurd h
key_back sf pf (string s) h =
    unfold parse_scalar_key int_or_string in
    rw (h.not_null, h.not_true, h.not_false, h.not_float, h.not_bytes, h.not_int) refl
key_back sf pf (bytes b) h =
    unfold parse_scalar_key same text starts_with in bytes_of-encode_bytes b h

module _ (sf : ShowF64) (pf : ParseF64) where
  mutual
    unfolding json_to_value json_to_items hash_from tree_from text same fields entries

    value_back : (v : Value) → IsPortable v → json_to_value pf (as_json sf v) ≡ ok v
    value_back (scalar null) h = refl
    value_back (scalar (bool b)) h = refl
    value_back (scalar (int n)) h = refl
    value_back (scalar (float f)) h = absurd h
    value_back (scalar (string s)) h = refl
    value_back (scalar (bytes b)) h = rw (bytes_of-encode_bytes b h) refl
    value_back (hash m) h = rw (fields_back m h.1 [] h.0, of_fields-fields m) refl
    value_back (set xs) h = rw (items_back xs h) refl
    value_back (list xs) h = rw (items_back xs h) refl
    value_back (tree m) h = rw (entries_back m h.1 [] h.0, of_entries-entries m) refl

    items_back : (xs : Items) → PortableItems xs → json_to_items pf (items_as_json sf xs) ≡ ok xs
    items_back no_items h = refl
    items_back (item v xs) h = rw (value_back v h.0, items_back xs h.1) refl

    fields_back :
        (m : Fields)
        → PortableFields m
        → (acc : OrdMap Bytes Value) → Sorted (acc ++ fields m)
        → hash_from pf acc (fields_as_json sf m) ≡ ok (acc ++ fields m)
    fields_back no_fields h acc s = rw append-nil refl
    fields_back (field k v m) h acc s =
        rw
          (
            value_back v h.0,
            insert-eq-append acc k v (fields m) s,
            fields_back m h.1 (acc ++ (k, v) ∷ []) (rw append_assoc s),
          )
          (rw append_assoc refl)

    entries_back :
        (m : Entries)
        → PortableEntries m
        → (acc : OrdMap Scalar Value) → Sorted (acc ++ entries m)
        → tree_from pf acc (entries_as_json sf m) ≡ ok (acc ++ entries m)
    entries_back no_entries h acc s = rw append-nil refl
    entries_back (entry k v m) h acc s =
        rw
          (
            key_back sf pf k h.0,
            value_back v h.1,
            insert-eq-append acc k v (entries m) s,
            entries_back m h.2 (acc ++ (k, v) ∷ []) (rw append_assoc s),
          )
          (rw append_assoc refl)

  -- The JSON of a portable value is taken to the value.
  pub json_to_value-as_json : (v : Value) → IsPortable v → json_to_value pf (as_json sf v) ≡ ok v
  json_to_value-as_json v h = value_back v h
