-- ===== src/Namespace/Json/RoundTrip.antt =====
-- The JSON text of a value against its reader.
use alefsdb.Prelude.{
  ℕ, zero, suc, ◌+◌, ◌*◌, ◌-◌, ◌≤◌, ◌≡◌, refl, ap, Bool, true, false, [], ◌∷◌, ◌++◌, append-nil, ok,
  map_err, ◌>>=◌, arith, length, length-append,
}
use alefsdb.Bytes.{Bytes, text, starts_with}
use alefsdb.Types.Value.{
  Scalar, null, bool, int, float, string, bytes, Value, scalar, hash, set, list, tree, Items,
  no_items, item, Fields, no_fields, field, Entries, no_entries, entry,
}
use alefsdb.Query.Parse.Tokens.{ParseF64}
use alefsdb.Namespace.Json.{json_string}
use alefsdb.Namespace.Json.Hex.{encode_bytes}
use alefsdb.Namespace.Json.Print.{ShowF64, json_str, bool_text, scalar_to_json, value_to_json}
use alefsdb.Namespace.Json.Parse.{
  skip_ws, parse_null, parse_bool, value_at, parse_value, array_loop, object_loop, parse_json_value,
  whole,
}
use alefsdb.Namespace.Json.Portable.{
  scalar_as_json, IsPortable, PortableItems, PortableFields, PortableEntries, IsPortableScalar,
}
use alefsdb.Namespace.Json.Strings.{Ends, int_back}
use alefsdb.Namespace.Json.Steps.{string_back, wrap_back}
use alefsdb.Namespace.Errors.{invalid, bad_json}
use alefsdb.Namespace.Json.Convert.{json_to_value}
use alefsdb.Namespace.Json.Back.{json_to_value-as_json}
use alefsdb.Namespace.Json.Texts.{Starts-pos, scalar-Starts, bytes_text}
use alefsdb.Namespace.Json.Rounds.{
  Reads, MoreItems, MoreFields, MoreEntries, MoreItems-nil, MoreFields-nil, MoreEntries-nil,
  MoreItems-cons, MoreFields-cons, MoreEntries-cons,
}
use alefsdb.Namespace.Json.Containers.{
  ArrayReads, FieldsRead, EntriesRead, array_cons, fields_cons, entries_cons, list-Reads, set-Reads,
  hash-Reads, tree-Reads, array_nil_reads, fields_nil, entries_nil,
}

module _ (sf : ShowF64) (pf : ParseF64) where
  word_reads_null :
      (f : ℕ) (rest : Bytes)
      → parse_value pf (suc f) (text "null" ++ rest) ≡ ok (scalar_as_json null, rest)
  unfolding text parse_value value_at skip_ws parse_null starts_with
  word_reads_null f rest = refl

  word_reads_bool :
      (b : Bool) (f : ℕ) (rest : Bytes)
      → parse_value pf (suc f) (bool_text b ++ rest) ≡ ok (scalar_as_json (bool b), rest)
  unfolding text bool_text parse_value value_at skip_ws parse_bool starts_with
  word_reads_bool true f rest = refl
  word_reads_bool false f rest = refl

  bytes_reads :
      (b : Bytes) (f : ℕ) (rest : Bytes)
      → 3 ≤ f
      → parse_value pf f (scalar_to_json sf (bytes b) ++ rest) ≡ ok (scalar_as_json (bytes b), rest)
  bytes_reads b f rest l =
      let q : f ≡ suc (suc (suc (f - 3))) = omega (arith, l) in
      let t = json_str (encode_bytes b) ++ b'}' ∷ rest in
      rw (bytes_text sf b rest, q)
        (wrap_back pf (suc (f - 3)) (text "__bytes") t rest (json_string (encode_bytes b))
          (string_back pf (f - 3) (encode_bytes b) (b'}' ∷ rest)))

  scalar_reads :
      (s : Scalar)
      → IsPortableScalar s
      → (f : ℕ) (rest : Bytes) → Ends rest
      → length (scalar_to_json sf s) ≤ f
      → parse_value pf f (scalar_to_json sf s ++ rest) ≡ ok (scalar_as_json s, rest)
  scalar_reads s h zero rest e l =
      absurd (omega (arith, l, Starts-pos (scalar_to_json sf s) (scalar-Starts sf s h)))
  scalar_reads null h (suc f) rest e l = unfold scalar_to_json in word_reads_null f rest
  scalar_reads (bool b) h (suc f) rest e l = unfold scalar_to_json in word_reads_bool b f rest
  scalar_reads (int n) h (suc f) rest e l =
      unfold scalar_to_json parse_value in
      int_back pf (array_loop pf f) (object_loop pf f) n rest h e
  scalar_reads (float b) h (suc f) rest e l = absurd h
  scalar_reads (string s) h (suc f) rest e l = unfold scalar_to_json in string_back pf f s rest
  scalar_reads (bytes b) h (suc f) rest e l = bytes_reads b (suc f) rest (three (suc f) l)
    where
      three : (f : ℕ) → length (scalar_to_json sf (bytes b)) ≤ f → 3 ≤ f
      three f l = omega (
        arith,
        l,
        ap (λ x. length x) (bytes_text sf b []),
        length-append (scalar_to_json sf (bytes b)) [],
        length-append (json_str (text "__bytes")) (b':' ∷ (json_str (encode_bytes b) ++ b'}' ∷ [])),
        length-append (json_str (encode_bytes b)) (b'}' ∷ []),
      )

  scalar_value-Reads : (s : Scalar) → IsPortableScalar s → Reads sf pf (scalar s)
  unfolding value_to_json
  scalar_value-Reads s h f rest e l = scalar_reads s h f rest e l

  mutual
    value-Reads : (v : Value) → IsPortable v → Reads sf pf v
    value-Reads (scalar s) h = scalar_value-Reads s h
    value-Reads (hash m) h = hash-Reads sf pf m (fields_read m h.1)
    value-Reads (set xs) h = set-Reads sf pf xs (array_reads xs h)
    value-Reads (list xs) h = list-Reads sf pf xs (array_reads xs h)
    value-Reads (tree m) h = tree-Reads sf pf m (entries_read m h.1)

    array_reads : (xs : Items) → PortableItems xs → ArrayReads sf pf xs
    array_reads no_items h = array_nil_reads sf pf
    array_reads (item v xs) h = array_cons sf pf v xs h.0 (value-Reads v h.0) (more_read xs h.1)

    more_read : (xs : Items) → PortableItems xs → MoreItems sf pf xs
    more_read no_items h = MoreItems-nil sf pf
    more_read (item v xs) h = MoreItems-cons sf pf v xs (value-Reads v h.0) (more_read xs h.1)

    fields_read : (m : Fields) → PortableFields m → FieldsRead sf pf m
    fields_read no_fields h = fields_nil sf pf
    fields_read (field k v m) h =
        fields_cons sf pf k v m (value-Reads v h.0) (MoreFields-read m h.1)

    MoreFields-read : (m : Fields) → PortableFields m → MoreFields sf pf m
    MoreFields-read no_fields h = MoreFields-nil sf pf
    MoreFields-read (field k v m) h =
        MoreFields-cons sf pf k v m (value-Reads v h.0) (MoreFields-read m h.1)

    entries_read : (m : Entries) → PortableEntries m → EntriesRead sf pf m
    entries_read no_entries h = entries_nil sf pf
    entries_read (entry k v m) h =
        entries_cons sf pf k v m (value-Reads v h.1) (MoreEntries-read m h.2)

    MoreEntries-read : (m : Entries) → PortableEntries m → MoreEntries sf pf m
    MoreEntries-read no_entries h = MoreEntries-nil sf pf
    MoreEntries-read (entry k v m) h =
        MoreEntries-cons sf pf k v m (value-Reads v h.1) (MoreEntries-read m h.2)

-- The JSON text of a value is parsed and converted back to it, whatever the texts of floats, when
-- the value has no float, its bytes are bytes, its integers fit an `i64`, its maps are in the order
-- of their keys, and no string among the keys of its trees reads as another scalar.
pub json_to_value-value_to_json :
    (sf : ShowF64) (pf : ParseF64) (v : Value)
    → IsPortable v
    → (map_err (λ e. invalid (bad_json e)) (parse_json_value pf (value_to_json sf v))
        >>= json_to_value pf)
      ≡ ok v
unfolding parse_json_value
json_to_value-value_to_json sf pf v h =
    let t = value_to_json sf v in
    let r = value-Reads sf pf v h (2 * length t + 2) [] tt (omega arith) in
    rw (rw append-nil at r) (unfold whole skip_ws in json_to_value-as_json sf pf v h)
