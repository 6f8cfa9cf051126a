-- ===== src/Namespace/Json/Convert.antt =====
-- `json_to_value` and `parse_scalar_key`.
use alefsdb.Prelude.{
  ℕ, true, false, Option, none, some, [], Result, ok, err, ◌>>=◌, map_err, drop, if◌then◌else◌,
}
use alefsdb.Prelude.Order.{ℤ, nat_ord, list_ord}
use alefsdb.Prelude.OrdMap.{OrdMap, insert}
use alefsdb.Bytes.{Bytes, text, same, starts_with}
use alefsdb.Bytes.Decimal.{parse_i64}
use alefsdb.Types.Value.{
  Scalar, null, bool, int, float, string, bytes, Value, scalar, hash, set, list, tree, Items,
  no_items, item, of_fields, of_entries,
}
use alefsdb.Types.Value.Order.{scalar_ord}
use alefsdb.Query.Parse.Tokens.{ParseF64}
use alefsdb.Namespace.Errors.{NsError, invalid, bad_hex_text, bad_float_key}
use alefsdb.Namespace.Json.{
  JsonVal, json_null, json_bool, json_number, json_float, json_string, json_array, json_object,
  JsonItems, no_json_items, json_item, JsonFields, no_json_fields, json_field,
}
use alefsdb.Namespace.Json.Hex.{decode_bytes}

unfoldable pub float_key : Option ℕ → Result NsError Scalar
float_key none = err (invalid bad_float_key)
float_key (some f) = ok (float f)

unfoldable pub bytes_of : Bytes → Result NsError Scalar
bytes_of s = map_err (λ e. invalid (bad_hex_text e)) (decode_bytes s) >>= λ b. ok (bytes b)

unfoldable pub int_or_string : Option ℤ → Bytes → Scalar
int_or_string (some n) s = int n
int_or_string none s = string s

module _ (parse_f64 : ParseF64) where
  unfoldable pub parse_scalar_key : Bytes → Result NsError Scalar
  parse_scalar_key s =
      if same s (text "null")
      then ok null
      else if same s (text "true")
      then ok (bool true)
      else if same s (text "false")
      then ok (bool false)
      else if starts_with (text "f:") s
      then float_key (parse_f64 (drop 2 s))
      else if starts_with (text "b:") s
      then bytes_of (drop 2 s)
      else ok (int_or_string (parse_i64 s) s)

  -- `hash_from` and `tree_from` insert the fields into a map one by one.
  unfoldable mutual
    pub json_to_value : JsonVal → Result NsError Value
    json_to_value json_null = ok (scalar null)
    json_to_value (json_bool b) = ok (scalar (bool b))
    json_to_value (json_number n) = ok (scalar (int n))
    json_to_value (json_float f) = ok (scalar (float f))
    json_to_value (json_string s) = ok (scalar (string s))
    json_to_value (json_array xs) = json_to_items xs >>= λ vs. ok (list vs)
    json_to_value (json_object no_json_fields) = ok (hash (of_fields []))
    json_to_value (json_object (json_field k (json_string h) no_json_fields)) =
        if same k (text "__bytes")
        then (bytes_of h >>= λ s. ok (scalar s))
        else ok (hash (of_fields (insert k (scalar (string h)) [])))
    json_to_value (json_object (json_field k (json_array xs) no_json_fields)) =
        let items = json_to_items xs in
        if same k (text "__set")
        then (items >>= λ vs. ok (set vs))
        else (items >>= λ vs. ok (hash (of_fields (insert k (list vs) []))))
    json_to_value (json_object (json_field k (json_object m) no_json_fields)) =
        let inner = hash_from [] m in
        let keyed = tree_from [] m in
        let plain = json_to_value (json_object m) in
        if same k (text "__hash")
        then (inner >>= λ h. ok (hash (of_fields h)))
        else if same k (text "__tree")
        then (keyed >>= λ t. ok (tree (of_entries t)))
        else (plain >>= λ v. ok (hash (of_fields (insert k v []))))
    json_to_value (json_object (json_field k v m)) =
        hash_from [] (json_field k v m) >>= λ h. ok (hash (of_fields h))

    pub json_to_items : JsonItems → Result NsError Items
    json_to_items no_json_items = ok no_items
    json_to_items (json_item v xs) =
        json_to_value v >>= λ w. json_to_items xs >>= λ ws. ok (item w ws)

    pub hash_from : OrdMap Bytes Value → JsonFields → Result NsError (OrdMap Bytes Value)
    hash_from acc no_json_fields = ok acc
    hash_from acc (json_field k v m) = json_to_value v >>= λ w. hash_from (insert k w acc) m

    pub tree_from : OrdMap Scalar Value → JsonFields → Result NsError (OrdMap Scalar Value)
    tree_from acc no_json_fields = ok acc
    tree_from acc (json_field k v m) =
        parse_scalar_key k >>= λ s. json_to_value v >>= λ w. tree_from (insert s w acc) m
