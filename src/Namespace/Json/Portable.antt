-- ===== src/Namespace/Json/Portable.antt =====
-- The JSON that a value stands for, and the portable values: no floats, maps in the order of their
-- keys, and no string among the keys of a tree that reads as another scalar.
use alefsdb.Prelude.{◌<◌, ◌≡◌, false, none, All}
use alefsdb.Prelude.Order.{nat_ord, list_ord}
use alefsdb.Prelude.OrdMap.{Sorted}
use alefsdb.Bytes.{Bytes, text, same, starts_with}
use alefsdb.Bytes.Decimal.{IsI64, parse_i64}
use alefsdb.Types.Value.{
  Scalar, null, bool, int, float, string, bytes, Value, scalar, hash, set, list, tree, Items,
  no_items, item, Fields, no_fields, field, Entries, no_entries, entry, fields, entries,
}
use alefsdb.Types.Value.Order.{scalar_ord}
use alefsdb.Namespace.Json.{
  JsonVal, json_null, json_bool, json_number, json_float, json_string, json_array, json_object,
  JsonItems, no_json_items, json_item, JsonFields, no_json_fields, json_field,
}
use alefsdb.Namespace.Json.Hex.{encode_bytes}
use alefsdb.Namespace.Json.Print.{ShowF64, scalar_key_str}

-- An object with one field.
abbrev pub wrap : Bytes → JsonVal → JsonVal
wrap k v = json_object (json_field k v no_json_fields)

abbrev pub scalar_as_json : Scalar → JsonVal
scalar_as_json null = json_null
scalar_as_json (bool b) = json_bool b
scalar_as_json (int n) = json_number n
scalar_as_json (float f) = json_float f
scalar_as_json (string s) = json_string s
scalar_as_json (bytes b) = wrap (text "__bytes") (json_string (encode_bytes b))

module _ (show_f64 : ShowF64) where
  abbrev mutual
    pub as_json : Value → JsonVal
    as_json (scalar s) = scalar_as_json s
    as_json (hash m) = wrap (text "__hash") (json_object (fields_as_json m))
    as_json (set xs) = wrap (text "__set") (json_array (items_as_json xs))
    as_json (list xs) = json_array (items_as_json xs)
    as_json (tree m) = wrap (text "__tree") (json_object (entries_as_json m))

    pub items_as_json : Items → JsonItems
    items_as_json no_items = no_json_items
    items_as_json (item v xs) = json_item (as_json v) (items_as_json xs)

    pub fields_as_json : Fields → JsonFields
    fields_as_json no_fields = no_json_fields
    fields_as_json (field k v m) = json_field k (as_json v) (fields_as_json m)

    pub entries_as_json : Entries → JsonFields
    entries_as_json no_entries = no_json_fields
    entries_as_json (entry k v m) =
        json_field (scalar_key_str show_f64 k) (as_json v) (entries_as_json m)

-- A string that `parse_scalar_key` leaves one.
pub record IsPlainKey (s : Bytes) : Type 0 where
  pub not_null : same s (text "null") ≡ false
  pub not_true : same s (text "true") ≡ false
  pub not_false : same s (text "false") ≡ false
  pub not_float : starts_with (text "f:") s ≡ false
  pub not_bytes : starts_with (text "b:") s ≡ false
  pub not_int : parse_i64 s ≡ none

abbrev pub IsPortableScalar : Scalar → Type 0
IsPortableScalar null = Unit
IsPortableScalar (bool b) = Unit
IsPortableScalar (int n) = IsI64 n
IsPortableScalar (float f) = ⊥
IsPortableScalar (string s) = Unit
IsPortableScalar (bytes b) = All (λ x. x < 256) b

abbrev pub IsPortableKey : Scalar → Type 0
IsPortableKey (string s) = IsPlainKey s
IsPortableKey s = IsPortableScalar s

abbrev mutual
  pub IsPortable : Value → Type 0
  IsPortable (scalar s) = IsPortableScalar s
  IsPortable (hash m) = Sorted (fields m) × PortableFields m
  IsPortable (set xs) = PortableItems xs
  IsPortable (list xs) = PortableItems xs
  IsPortable (tree m) = Sorted (entries m) × PortableEntries m

  pub PortableItems : Items → Type 0
  PortableItems no_items = Unit
  PortableItems (item v xs) = IsPortable v × PortableItems xs

  pub PortableFields : Fields → Type 0
  PortableFields no_fields = Unit
  PortableFields (field k v m) = IsPortable v × PortableFields m

  pub PortableEntries : Entries → Type 0
  PortableEntries no_entries = Unit
  PortableEntries (entry k v m) = IsPortableKey k × IsPortable v × PortableEntries m
