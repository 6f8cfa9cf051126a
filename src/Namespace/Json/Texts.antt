-- ===== src/Namespace/Json/Texts.antt =====
-- The texts of values, cut at the places where the descent stops.
use alefsdb.Prelude.{
  ℕ, ◌+◌, ◌≤◌, ◌≡◌, refl, ap, true, false, [], ◌∷◌, ◌++◌, append_assoc, arith, length,
  length-append,
}
use alefsdb.Bytes.{Bytes, text}
use alefsdb.Types.Value.{
  Scalar, null, bool, int, float, string, bytes, Value, scalar, hash, set, list, tree, Items, item,
  Fields, field, Entries, entry,
}
use alefsdb.Namespace.Json.Hex.{encode_bytes}
use alefsdb.Namespace.Json.Print.{
  ShowF64, escape, json_str, bool_text, scalar_key_str, scalar_to_json, value_to_json,
  items_to_json, more_items, fields_to_json, more_fields, entries_to_json, more_entries,
}
use alefsdb.Namespace.Json.Portable.{IsPortable, IsPortableScalar}
use alefsdb.Namespace.Json.Strings.{show_i64_head}
use alefsdb.Namespace.Json.Steps.{Starts}

Starts-append : (t r : Bytes) → Starts t → Starts (t ++ r)
Starts-append [] r h = absurd h
Starts-append (c ∷ cs) r h = h

pub Starts-pos : (t : Bytes) → Starts t → 1 ≤ length t
Starts-pos [] h = absurd h
Starts-pos (c ∷ cs) h = omega arith

module _ (sf : ShowF64) where
  pub scalar-Starts : (s : Scalar) → IsPortableScalar s → Starts (scalar_to_json sf s)
  unfolding scalar_to_json text json_str bool_text
  scalar-Starts null h = refl
  scalar-Starts (bool true) h = refl
  scalar-Starts (bool false) h = refl
  scalar-Starts (int n) h = let (c, ds, q, t, d) = show_i64_head n in rw q (ground (arith, t))
  scalar-Starts (float f) h = absurd h
  scalar-Starts (string s) h = refl
  scalar-Starts (bytes b) h = refl

  pub value-Starts : (v : Value) → IsPortable v → Starts (value_to_json sf v)
  unfolding value_to_json text
  value-Starts (scalar s) h = scalar-Starts s h
  value-Starts (hash m) h = refl
  value-Starts (set xs) h = refl
  value-Starts (list xs) h = refl
  value-Starts (tree m) h = refl

  pub bytes_text :
      (b rest : Bytes)
      → scalar_to_json sf (bytes b) ++ rest
        ≡ b'{' ∷ (json_str (text "__bytes") ++ b':' ∷ (json_str (encode_bytes b) ++ b'}' ∷ rest))
  unfolding scalar_to_json text json_str escape
  bytes_text b rest = simp append_assoc

  pub hash_text :
      (m : Fields) (rest : Bytes)
      → value_to_json sf (hash m) ++ rest
        ≡ b'{'
          ∷ (json_str (text "__hash")
              ++ b':' ∷ b' ' ∷ b'{' ∷ (fields_to_json sf m ++ b'}' ∷ b'}' ∷ rest))
  unfolding value_to_json text json_str escape
  hash_text m rest = rw (append_assoc (fields_to_json sf m) (b'}' ∷ b'}' ∷ []) rest) refl

  pub set-text :
      (xs : Items) (rest : Bytes)
      → value_to_json sf (set xs) ++ rest
        ≡ b'{'
          ∷ (json_str (text "__set")
              ++ b':' ∷ b' ' ∷ b'[' ∷ (items_to_json sf xs ++ b']' ∷ b'}' ∷ rest))
  unfolding value_to_json text json_str escape
  set-text xs rest = rw (append_assoc (items_to_json sf xs) (b']' ∷ b'}' ∷ []) rest) refl

  pub list_text :
      (xs : Items) (rest : Bytes)
      → value_to_json sf (list xs) ++ rest ≡ b'[' ∷ (items_to_json sf xs ++ b']' ∷ rest)
  unfolding value_to_json text
  list_text xs rest = rw (append_assoc (items_to_json sf xs) (b']' ∷ []) rest) refl

  pub tree_text :
      (m : Entries) (rest : Bytes)
      → value_to_json sf (tree m) ++ rest
        ≡ b'{'
          ∷ (json_str (text "__tree")
              ++ b':' ∷ b' ' ∷ b'{' ∷ (entries_to_json sf m ++ b'}' ∷ b'}' ∷ rest))
  unfolding value_to_json text json_str escape
  tree_text m rest = rw (append_assoc (entries_to_json sf m) (b'}' ∷ b'}' ∷ []) rest) refl

  pub item_text :
      (v : Value) (xs : Items) (r : Bytes)
      → items_to_json sf (item v xs) ++ r ≡ value_to_json sf v ++ (more_items sf xs ++ r)
  unfolding items_to_json
  item_text v xs r = append_assoc (value_to_json sf v) (more_items sf xs) r

  pub next_item_text :
      (v : Value) (xs : Items) (r : Bytes)
      → more_items sf (item v xs) ++ r
        ≡ b',' ∷ b' ' ∷ (value_to_json sf v ++ (more_items sf xs ++ r))
  unfolding more_items text
  next_item_text v xs r = rw (append_assoc (value_to_json sf v) (more_items sf xs) r) refl

  -- A field, with the rest of the object behind it.
  part_text :
      (k t more r : Bytes)
      → (json_str k ++ (b':' ∷ b' ' ∷ []) ++ t ++ more) ++ r
        ≡ json_str k ++ b':' ∷ b' ' ∷ (t ++ (more ++ r))
  part_text k t more r = simp append_assoc

  pub field_text :
      (k : Bytes) (v : Value) (m : Fields) (r : Bytes)
      → fields_to_json sf (field k v m) ++ r
        ≡ json_str k ++ b':' ∷ b' ' ∷ (value_to_json sf v ++ (more_fields sf m ++ r))
  unfolding fields_to_json text
  field_text k v m r = part_text k (value_to_json sf v) (more_fields sf m) r

  pub next_field_text :
      (k : Bytes) (v : Value) (m : Fields) (r : Bytes)
      → more_fields sf (field k v m) ++ r
        ≡ b','
          ∷ b' '
          ∷ (json_str k ++ b':' ∷ b' ' ∷ (value_to_json sf v ++ (more_fields sf m ++ r)))
  unfolding more_fields text
  next_field_text k v m r =
      ap (λ s. b',' ∷ b' ' ∷ s) (part_text k (value_to_json sf v) (more_fields sf m) r)

  pub entry_text :
      (k : Scalar) (v : Value) (m : Entries) (r : Bytes)
      → entries_to_json sf (entry k v m) ++ r
        ≡ json_str (scalar_key_str sf k)
          ++ b':' ∷ b' ' ∷ (value_to_json sf v ++ (more_entries sf m ++ r))
  unfolding entries_to_json text
  entry_text k v m r = part_text (scalar_key_str sf k) (value_to_json sf v) (more_entries sf m) r

  pub next_entry_text :
      (k : Scalar) (v : Value) (m : Entries) (r : Bytes)
      → more_entries sf (entry k v m) ++ r
        ≡ b','
          ∷ b' '
          ∷ (json_str (scalar_key_str sf k)
              ++ b':' ∷ b' ' ∷ (value_to_json sf v ++ (more_entries sf m ++ r)))
  unfolding more_entries text
  next_entry_text k v m r =
      ap (λ s. b',' ∷ b' ' ∷ s)
        (part_text (scalar_key_str sf k) (value_to_json sf v) (more_entries sf m) r)

-- Lengths, from the cuts.
pub length-part :
    (t pre v m : Bytes)
    → t ++ [] ≡ pre ++ b':' ∷ b' ' ∷ (v ++ (m ++ []))
    → length v + length m + 2 ≤ length t
length-part t pre v m h = omega (
  arith,
  ap (λ x. length x) h,
  length-append t [],
  length-append pre (b':' ∷ b' ' ∷ (v ++ (m ++ []))),
  length-append v (m ++ []),
  length-append m [],
)

pub length-wrapped :
    (t pre m : Bytes) (a b : ℕ)
    → t ++ [] ≡ b'{' ∷ (pre ++ b':' ∷ b' ' ∷ a ∷ (m ++ b ∷ b'}' ∷ []))
    → length m + 6 ≤ length t
length-wrapped t pre m a b h = omega (
  arith,
  ap (λ x. length x) h,
  length-append t [],
  length-append pre (b':' ∷ b' ' ∷ a ∷ (m ++ b ∷ b'}' ∷ [])),
  length-append m (b ∷ b'}' ∷ []),
)

pub length-joined : (t v m : Bytes) → t ++ [] ≡ v ++ (m ++ []) → length v + length m ≤ length t
length-joined t v m h =
    omega (
      arith,
      ap (λ x. length x) h,
      length-append t [],
      length-append v (m ++ []),
      length-append m [],
    )
