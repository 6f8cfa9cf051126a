-- ===== src/Namespace/Json/Print.antt =====
-- `value_to_json`. The text of a finite float is a parameter.
use alefsdb.Prelude.{ℕ, ◌/◌, ◌%◌, ◌^◌, ◌==◌, Bool, true, false, not, [], ◌∷◌, ◌++◌, if◌then◌else◌}
use alefsdb.Bytes.{Bytes, text}
use alefsdb.Bytes.Decimal.{show_nat, show_i64}
use alefsdb.Types.Value.{
  Scalar, null, bool, int, float, string, bytes, Value, scalar, hash, set, list, tree, Items,
  no_items, item, Fields, no_fields, field, Entries, no_entries, entry,
}
use alefsdb.Namespace.Json.Hex.{encode_bytes}

-- `s.replace('\\', "\\\\").replace('"', "\\\"")`
unfoldable pub escape : Bytes → Bytes
escape [] = []
escape (b ∷ bs) =
    let rest = escape bs in
    if b == b'\\' then b'\\' ∷ b'\\' ∷ rest else if b == b'"' then b'\\' ∷ b'"' ∷ rest else b ∷ rest

unfoldable pub json_str : Bytes → Bytes
json_str s = b'"' ∷ (escape s ++ b'"' ∷ [])

unfoldable pub bool_text : Bool → Bytes
bool_text true = text "true"
bool_text false = text "false"

-- `f64::is_finite`: the exponent's bits are not all set.
unfoldable pub is_finite : ℕ → Bool
is_finite bits = not (bits / 2 ^ 52 % 2 ^ 11 == 2047)

-- `format!("{f}")` of the float with the bits.
abbrev pub ShowF64 : Type 0
ShowF64 = ℕ → Bytes

module _ (show_f64 : ShowF64) where
  unfoldable pub scalar_key_str : Scalar → Bytes
  scalar_key_str null = text "null"
  scalar_key_str (bool b) = bool_text b
  scalar_key_str (int n) = show_i64 n
  scalar_key_str (float f) = text "f:" ++ show_f64 f
  scalar_key_str (string s) = s
  scalar_key_str (bytes b) = text "b:" ++ encode_bytes b

  unfoldable pub scalar_to_json : Scalar → Bytes
  scalar_to_json null = text "null"
  scalar_to_json (bool b) = bool_text b
  scalar_to_json (int n) = show_i64 n
  scalar_to_json (float f) =
      if is_finite f then show_f64 f else json_str (text "float:" ++ show_nat f)
  scalar_to_json (string s) = json_str s
  scalar_to_json (bytes b) = text "{\"__bytes\":" ++ json_str (encode_bytes b) ++ text "}"

  -- `parts.join(", ")`: `more_…` are the parts behind the first, each with its `, `.
  unfoldable mutual
    pub value_to_json : Value → Bytes
    value_to_json (scalar s) = scalar_to_json s
    value_to_json (hash m) = text "{\"__hash\": {" ++ fields_to_json m ++ text "}}"
    value_to_json (list xs) = text "[" ++ items_to_json xs ++ text "]"
    value_to_json (set xs) = text "{\"__set\": [" ++ items_to_json xs ++ text "]}"
    value_to_json (tree m) = text "{\"__tree\": {" ++ entries_to_json m ++ text "}}"

    pub items_to_json : Items → Bytes
    items_to_json no_items = []
    items_to_json (item v xs) = value_to_json v ++ more_items xs

    pub more_items : Items → Bytes
    more_items no_items = []
    more_items (item v xs) = text ", " ++ value_to_json v ++ more_items xs

    pub fields_to_json : Fields → Bytes
    fields_to_json no_fields = []
    fields_to_json (field k v m) = json_str k ++ text ": " ++ value_to_json v ++ more_fields m

    pub more_fields : Fields → Bytes
    more_fields no_fields = []
    more_fields (field k v m) =
        text ", " ++ json_str k ++ text ": " ++ value_to_json v ++ more_fields m

    pub entries_to_json : Entries → Bytes
    entries_to_json no_entries = []
    entries_to_json (entry k v m) =
        json_str (scalar_key_str k) ++ text ": " ++ value_to_json v ++ more_entries m

    pub more_entries : Entries → Bytes
    more_entries no_entries = []
    more_entries (entry k v m) =
        text ", " ++ json_str (scalar_key_str k) ++ text ": " ++ value_to_json v ++ more_entries m
