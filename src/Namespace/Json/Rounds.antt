-- ===== src/Namespace/Json/Rounds.antt =====
-- The rounds of the parser's loops over a container's text.
use alefsdb.Prelude.{ℕ, suc, ◌+◌, ◌-◌, ◌≤◌, ◌≡◌, refl, ◌∙◌, [], ◌∷◌, ◌++◌, ok, arith, length}
use alefsdb.Bytes.{Bytes, text}
use alefsdb.Types.Value.{
  Scalar, Value, Items, no_items, item, Fields, no_fields, field, Entries, no_entries, entry,
}
use alefsdb.Query.Parse.Tokens.{ParseF64}
use alefsdb.Namespace.Json.{JsonVal, JsonItems, JsonFields, json_field, json_item}
use alefsdb.Namespace.Json.Print.{
  ShowF64, json_str, scalar_key_str, value_to_json, more_items, more_fields, more_entries,
}
use alefsdb.Namespace.Json.Parse.{
  skip_ws, after_item, after_field, parse_value, array_loop, object_loop,
}
use alefsdb.Namespace.Json.Portable.{as_json, items_as_json, fields_as_json, entries_as_json}
use alefsdb.Namespace.Json.Strings.{Ends}
use alefsdb.Namespace.Json.Steps.{
  parse_value_blank, array_loop_blank, object_loop_blank, object_loop-field,
}
use alefsdb.Namespace.Json.Texts.{
  next_item_text, next_field_text, next_entry_text, length-part, length-joined,
}

module _ (sf : ShowF64) (pf : ParseF64) where
  -- Fuel for the text reads the text off the front.
  abbrev pub Reads : Value → Type 0
  Reads v =
      (f : ℕ) (rest : Bytes)
      → Ends rest
      → length (value_to_json sf v) ≤ f
      → parse_value pf f (value_to_json sf v ++ rest) ≡ ok (as_json sf v, rest)

  pub more_Ends : (xs : Items) (rest : Bytes) → Ends (more_items sf xs ++ b']' ∷ rest)
  unfolding more_items text
  more_Ends no_items rest = refl
  more_Ends (item v xs) rest = refl

  pub more_fields-Ends : (m : Fields) (rest : Bytes) → Ends (more_fields sf m ++ b'}' ∷ rest)
  unfolding more_fields text
  more_fields-Ends no_fields rest = refl
  more_fields-Ends (field k v m) rest = refl

  pub more_entries-Ends : (m : Entries) (rest : Bytes) → Ends (more_entries sf m ++ b'}' ∷ rest)
  unfolding more_entries text
  more_entries-Ends no_entries rest = refl
  more_entries-Ends (entry k v m) rest = refl

  -- A round of the array's loop.
  pub item_step :
      (v : Value) (f : ℕ) (x : Bytes)
      → Reads v
      → Ends x
      → length (value_to_json sf v) ≤ f
      → array_loop pf (suc f) (value_to_json sf v ++ x)
        ≡ after_item (array_loop pf f) (as_json sf v) (skip_ws x)
  unfolding array_loop
  item_step v f x r e l = rw (r f x e l) refl

  -- A round of the object's loop.
  pub field_step :
      (k : Bytes) (v : Value) (f : ℕ) (x : Bytes)
      → Reads v
      → Ends x
      → length (value_to_json sf v) ≤ f
      → object_loop pf (suc f) (json_str k ++ b':' ∷ b' ' ∷ (value_to_json sf v ++ x))
        ≡ after_field (object_loop pf f) k (as_json sf v) (skip_ws x)
  field_step k v f x r e l =
      object_loop-field pf f k (b' ' ∷ (value_to_json sf v ++ x)) x (as_json sf v)
        (parse_value_blank pf f (value_to_json sf v ++ x) ∙ r f x e l)

  next_item :
      (f : ℕ) (jv : JsonVal) (s : Bytes) (xs : JsonItems) (rest : Bytes)
      → array_loop pf f s ≡ ok (xs, rest)
      → after_item (array_loop pf f) jv (skip_ws (b',' ∷ b' ' ∷ s)) ≡ ok (json_item jv xs, rest)
  unfolding after_item skip_ws
  next_item f jv s xs rest h = rw (array_loop_blank pf f s, h) refl

  next_field :
      (f : ℕ) (k : Bytes) (jv : JsonVal) (s : Bytes) (m : JsonFields) (rest : Bytes)
      → object_loop pf f s ≡ ok (m, rest)
      → after_field (object_loop pf f) k jv (skip_ws (b',' ∷ b' ' ∷ s))
        ≡ ok (json_field k jv m, rest)
  unfolding after_field skip_ws
  next_field f k jv s m rest h = rw (object_loop_blank pf f s, h) refl

  -- The items, fields and entries behind the first.
  abbrev pub MoreItems : Items → Type 0
  MoreItems xs =
      (f : ℕ) (jv : JsonVal) (rest : Bytes)
      → length (more_items sf xs) ≤ f
      → after_item (array_loop pf f) jv (skip_ws (more_items sf xs ++ b']' ∷ rest))
        ≡ ok (json_item jv (items_as_json sf xs), rest)

  abbrev pub MoreFields : Fields → Type 0
  MoreFields m =
      (f : ℕ) (k : Bytes) (jv : JsonVal) (rest : Bytes)
      → length (more_fields sf m) ≤ f
      → after_field (object_loop pf f) k jv (skip_ws (more_fields sf m ++ b'}' ∷ rest))
        ≡ ok (json_field k jv (fields_as_json sf m), rest)

  abbrev pub MoreEntries : Entries → Type 0
  MoreEntries m =
      (f : ℕ) (k : Bytes) (jv : JsonVal) (rest : Bytes)
      → length (more_entries sf m) ≤ f
      → after_field (object_loop pf f) k jv (skip_ws (more_entries sf m ++ b'}' ∷ rest))
        ≡ ok (json_field k jv (entries_as_json sf m), rest)

  pub MoreItems-nil : MoreItems no_items
  unfolding more_items after_item skip_ws
  MoreItems-nil f jv rest l = refl

  pub MoreFields-nil : MoreFields no_fields
  unfolding more_fields after_field skip_ws
  MoreFields-nil f k jv rest l = refl

  pub MoreEntries-nil : MoreEntries no_entries
  unfolding more_entries after_field skip_ws
  MoreEntries-nil f k jv rest l = refl

  pub MoreItems-cons : (v : Value) (xs : Items) → Reads v → MoreItems xs → MoreItems (item v xs)
  MoreItems-cons v xs rv rx f jv rest l =
      let n = length-next v xs in
      let q : f ≡ suc (f - 1) = omega (arith, l, n) in
      let x = more_items sf xs ++ b']' ∷ rest in
      rw (next_item_text sf v xs (b']' ∷ rest)) (
        next_item f jv (value_to_json sf v ++ x) (items_as_json sf (item v xs)) rest (
          rw q (
            item_step v (f - 1) x rv (more_Ends xs rest) (omega (arith, l, n))
            ∙ rx (f - 1) (as_json sf v) rest (omega (arith, l, n)))))
    where
      length-next :
          (v : Value) (xs : Items)
          → length (value_to_json sf v) + length (more_items sf xs) + 2
            ≤ length (more_items sf (item v xs))
      length-next v xs = omega (
        arith,
        length-joined (more_items sf (item v xs)) (b',' ∷ b' ' ∷ value_to_json sf v)
            (more_items sf xs) (next_item_text sf v xs []),
      )

  pub MoreFields-cons :
      (k : Bytes) (v : Value) (m : Fields) → Reads v → MoreFields m → MoreFields (field k v m)
  MoreFields-cons k v m rv rm f j jv rest l =
      let n =
        length-part (more_fields sf (field k v m)) (b',' ∷ b' ' ∷ json_str k) (value_to_json sf v)
          (more_fields sf m) (next_field_text sf k v m []) in
      let q : f ≡ suc (f - 1) = omega (arith, l, n) in
      let x = more_fields sf m ++ b'}' ∷ rest in
      rw (next_field_text sf k v m (b'}' ∷ rest)) (
        next_field f j jv (json_str k ++ b':' ∷ b' ' ∷ (value_to_json sf v ++ x))
          (fields_as_json sf (field k v m)) rest
          (rw q (
            field_step k v (f - 1) x rv (more_fields-Ends m rest) (omega (arith, l, n))
            ∙ rm (f - 1) k (as_json sf v) rest (omega (arith, l, n)))))

  pub MoreEntries-cons :
      (k : Scalar) (v : Value) (m : Entries) → Reads v → MoreEntries m → MoreEntries (entry k v m)
  MoreEntries-cons k v m rv rm f j jv rest l =
      let s = scalar_key_str sf k in
      let n =
        length-part (more_entries sf (entry k v m)) (b',' ∷ b' ' ∷ json_str s) (value_to_json sf v)
          (more_entries sf m) (next_entry_text sf k v m []) in
      let q : f ≡ suc (f - 1) = omega (arith, l, n) in
      let x = more_entries sf m ++ b'}' ∷ rest in
      rw (next_entry_text sf k v m (b'}' ∷ rest)) (
        next_field f j jv (json_str s ++ b':' ∷ b' ' ∷ (value_to_json sf v ++ x))
          (entries_as_json sf (entry k v m)) rest
          (rw q (
            field_step s v (f - 1) x rv (more_entries-Ends m rest) (omega (arith, l, n))
            ∙ rm (f - 1) s (as_json sf v) rest (omega (arith, l, n)))))
