-- ===== src/Namespace/Json/Containers.antt =====
-- The descent over the text of a container, given the texts of its parts.
use alefsdb.Prelude.{
  ℕ, suc, ◌+◌, ◌-◌, ◌≤◌, ◌<◌, ◌≡◌, refl, ◌∙◌, ap, [], ◌∷◌, ◌++◌, ok, arith, length, length-append,
}
use alefsdb.Bytes.{Bytes, text}
use alefsdb.Types.Value.{
  Scalar, Value, hash, set, list, tree, Items, no_items, item, Fields, no_fields, field, Entries,
  no_entries, entry,
}
use alefsdb.Query.Parse.Tokens.{ParseF64}
use alefsdb.Namespace.Json.{no_json_items, no_json_fields, json_array, json_object}
use alefsdb.Namespace.Json.Print.{
  ShowF64, json_str, scalar_key_str, value_to_json, items_to_json, more_items, fields_to_json,
  more_fields, entries_to_json, more_entries,
}
use alefsdb.Namespace.Json.Parse.{skip_ws, array_at, object_at, array_loop, object_loop}
use alefsdb.Namespace.Json.Portable.{
  as_json, items_as_json, fields_as_json, entries_as_json, IsPortable,
}
use alefsdb.Namespace.Json.Steps.{
  array_at-Starts, object_at-json_str, parse_value_blank, at_bracket, at_brace, wrap_back,
}
use alefsdb.Namespace.Json.Texts.{
  value-Starts, hash_text, set-text, list_text, tree_text, item_text, field_text, entry_text,
  length-part, length-wrapped, length-joined,
}
use alefsdb.Namespace.Json.Rounds.{
  Reads, MoreItems, MoreFields, MoreEntries, more_Ends, more_fields-Ends, more_entries-Ends,
  item_step, field_step,
}

module _ (sf : ShowF64) (pf : ParseF64) where
  array_nil :
      (f : ℕ) (rest : Bytes)
      → array_at (array_loop pf f) (skip_ws (items_to_json sf no_items ++ b']' ∷ rest))
        ≡ ok (no_json_items, rest)
  unfolding items_to_json array_at skip_ws
  array_nil f rest = refl

  pub array_cons :
      (v : Value) (xs : Items)
      → IsPortable v
      → Reads sf pf v
      → MoreItems sf pf xs
      → (f : ℕ) (rest : Bytes) → length (items_to_json sf (item v xs)) < f
      → array_at (array_loop pf f) (skip_ws (items_to_json sf (item v xs) ++ b']' ∷ rest))
        ≡ ok (items_as_json sf (item v xs), rest)
  array_cons v xs p rv rx f rest l =
      let n =
        length-joined (items_to_json sf (item v xs)) (value_to_json sf v) (more_items sf xs)
          (item_text sf v xs []) in
      let q : f ≡ suc (f - 1) = omega (arith, l, n) in
      let x = more_items sf xs ++ b']' ∷ rest in
      rw
        (
          item_text sf v xs (b']' ∷ rest),
          array_at-Starts (array_loop pf f) (value_to_json sf v) x (value-Starts sf v p),
        )
        (rw q (
          item_step sf pf v (f - 1) x rv (more_Ends sf pf xs rest) (omega (arith, l, n))
          ∙ rx (f - 1) (as_json sf v) rest (omega (arith, l, n))))

  object_nil :
      (f : ℕ) (rest : Bytes)
      → object_at (object_loop pf f) (skip_ws (b'}' ∷ rest)) ≡ ok (no_json_fields, rest)
  unfolding object_at skip_ws
  object_nil f rest = refl

  pub fields_cons :
      (k : Bytes) (v : Value) (m : Fields)
      → Reads sf pf v
      → MoreFields sf pf m
      → (f : ℕ) (rest : Bytes) → length (fields_to_json sf (field k v m)) < f
      → object_at (object_loop pf f) (skip_ws (fields_to_json sf (field k v m) ++ b'}' ∷ rest))
        ≡ ok (fields_as_json sf (field k v m), rest)
  fields_cons k v m rv rm f rest l =
      let n =
        length-part (fields_to_json sf (field k v m)) (json_str k) (value_to_json sf v)
          (more_fields sf m) (field_text sf k v m []) in
      let q : f ≡ suc (f - 1) = omega (arith, l, n) in
      let x = more_fields sf m ++ b'}' ∷ rest in
      rw
        (
          field_text sf k v m (b'}' ∷ rest),
          object_at-json_str (object_loop pf f) k (b':' ∷ b' ' ∷ (value_to_json sf v ++ x)),
        )
        (rw q (
          field_step sf pf k v (f - 1) x rv (more_fields-Ends sf pf m rest) (omega (arith, l, n))
          ∙ rm (f - 1) k (as_json sf v) rest (omega (arith, l, n))))

  pub entries_cons :
      (k : Scalar) (v : Value) (m : Entries)
      → Reads sf pf v
      → MoreEntries sf pf m
      → (f : ℕ) (rest : Bytes) → length (entries_to_json sf (entry k v m)) < f
      → object_at (object_loop pf f) (skip_ws (entries_to_json sf (entry k v m) ++ b'}' ∷ rest))
        ≡ ok (entries_as_json sf (entry k v m), rest)
  entries_cons k v m rv rm f rest l =
      let s = scalar_key_str sf k in
      let n =
        length-part (entries_to_json sf (entry k v m)) (json_str s) (value_to_json sf v)
          (more_entries sf m) (entry_text sf k v m []) in
      let q : f ≡ suc (f - 1) = omega (arith, l, n) in
      let x = more_entries sf m ++ b'}' ∷ rest in
      rw
        (
          entry_text sf k v m (b'}' ∷ rest),
          object_at-json_str (object_loop pf f) s (b':' ∷ b' ' ∷ (value_to_json sf v ++ x)),
        )
        (rw q (
          field_step sf pf s v (f - 1) x rv (more_entries-Ends sf pf m rest) (omega (arith, l, n))
          ∙ rm (f - 1) s (as_json sf v) rest (omega (arith, l, n))))

  -- A container's parts, behind the bracket.
  abbrev pub ArrayReads : Items → Type 0
  ArrayReads xs =
      (f : ℕ) (rest : Bytes)
      → length (items_to_json sf xs) < f
      → array_at (array_loop pf f) (skip_ws (items_to_json sf xs ++ b']' ∷ rest))
        ≡ ok (items_as_json sf xs, rest)

  abbrev pub FieldsRead : Fields → Type 0
  FieldsRead m =
      (f : ℕ) (rest : Bytes)
      → length (fields_to_json sf m) < f
      → object_at (object_loop pf f) (skip_ws (fields_to_json sf m ++ b'}' ∷ rest))
        ≡ ok (fields_as_json sf m, rest)

  abbrev pub EntriesRead : Entries → Type 0
  EntriesRead m =
      (f : ℕ) (rest : Bytes)
      → length (entries_to_json sf m) < f
      → object_at (object_loop pf f) (skip_ws (entries_to_json sf m ++ b'}' ∷ rest))
        ≡ ok (entries_as_json sf m, rest)

  pub array_nil_reads : ArrayReads no_items
  array_nil_reads f rest l = array_nil f rest

  pub fields_nil : FieldsRead no_fields
  unfolding fields_to_json
  fields_nil f rest l = object_nil f rest

  pub entries_nil : EntriesRead no_entries
  unfolding entries_to_json
  entries_nil f rest l = object_nil f rest

  pub list-Reads : (xs : Items) → ArrayReads xs → Reads sf pf (list xs)
  list-Reads xs r f rest e l =
      let n = omega-list xs in
      let q : f ≡ suc (f - 1) = omega (arith, l, n) in
      rw
        (
          list_text sf xs rest,
          q,
          at_bracket pf (f - 1) (items_to_json sf xs ++ b']' ∷ rest),
          r (f - 1) rest (omega (arith, l, n)),
        )
        refl
    where
      omega-list :
          (xs : Items) → length (items_to_json sf xs) + 2 ≤ length (value_to_json sf (list xs))
      omega-list xs = omega (
        arith,
        ap (λ x. length x) (list_text sf xs []),
        length-append (value_to_json sf (list xs)) [],
        length-append (items_to_json sf xs) (b']' ∷ []),
      )

  pub set-Reads : (xs : Items) → ArrayReads xs → Reads sf pf (set xs)
  set-Reads xs r f rest e l =
      let n =
        length-wrapped (value_to_json sf (set xs)) (json_str (text "__set")) (items_to_json sf xs)
          b'[' b']' (set-text sf xs []) in
      let q : f ≡ suc (suc (suc (f - 3))) = omega (arith, l, n) in
      let t = items_to_json sf xs ++ b']' ∷ b'}' ∷ rest in
      rw (set-text sf xs rest, q)
        (wrap_back pf (suc (f - 3)) (text "__set") (b' ' ∷ b'[' ∷ t) rest
          (json_array (items_as_json sf xs))
          (parse_value_blank pf (suc (f - 3)) (b'[' ∷ t)
            ∙ rw (at_bracket pf (f - 3) t, r (f - 3) (b'}' ∷ rest) (omega (arith, l, n))) refl))

  pub hash-Reads : (m : Fields) → FieldsRead m → Reads sf pf (hash m)
  hash-Reads m r f rest e l =
      let n =
        length-wrapped (value_to_json sf (hash m)) (json_str (text "__hash")) (fields_to_json sf m)
          b'{' b'}' (hash_text sf m []) in
      let q : f ≡ suc (suc (suc (f - 3))) = omega (arith, l, n) in
      let t = fields_to_json sf m ++ b'}' ∷ b'}' ∷ rest in
      rw (hash_text sf m rest, q)
        (wrap_back pf (suc (f - 3)) (text "__hash") (b' ' ∷ b'{' ∷ t) rest
          (json_object (fields_as_json sf m))
          (parse_value_blank pf (suc (f - 3)) (b'{' ∷ t)
            ∙ rw (at_brace pf (f - 3) t, r (f - 3) (b'}' ∷ rest) (omega (arith, l, n))) refl))

  pub tree-Reads : (m : Entries) → EntriesRead m → Reads sf pf (tree m)
  tree-Reads m r f rest e l =
      let n =
        length-wrapped (value_to_json sf (tree m)) (json_str (text "__tree")) (entries_to_json sf m)
          b'{' b'}' (tree_text sf m []) in
      let q : f ≡ suc (suc (suc (f - 3))) = omega (arith, l, n) in
      let t = entries_to_json sf m ++ b'}' ∷ b'}' ∷ rest in
      rw (tree_text sf m rest, q)
        (wrap_back pf (suc (f - 3)) (text "__tree") (b' ' ∷ b'{' ∷ t) rest
          (json_object (entries_as_json sf m))
          (parse_value_blank pf (suc (f - 3)) (b'{' ∷ t)
            ∙ rw (at_brace pf (f - 3) t, r (f - 3) (b'}' ∷ rest) (omega (arith, l, n))) refl))
