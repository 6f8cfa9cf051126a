-- ===== src/Types/Codec/RoundTrip.antt =====
-- The encoding of a value against `decode`.
mod Parts
use alefsdb.Prelude.{
  ℕ, zero, suc, ◌≤◌, ◌<◌, ◌+◌, ◌^◌, ◌≡◌, refl, ap, ◌∙◌, Option, none, some, List, [], ◌∷◌, ◌++◌,
  arith, ok, length, length-append, append-nil, append_assoc, sym,
}
use alefsdb.Prelude.Order.{nat_ord, list_ord}
use alefsdb.Prelude.OrdMap.{OrdMap, Sorted, insert, insert-eq-append}
use alefsdb.Bytes.{Bytes, bytes_ord}
use alefsdb.Types.Value.{
  Scalar, Value, scalar, hash, set, list, tree, Items, no_items, item, Fields, no_fields, field,
  Entries, no_entries, entry, items, fields, entries, of_fields, of_entries, of_fields-fields,
  of_entries-entries,
}
use alefsdb.Types.Value.Order.{scalar_ord}
use alefsdb.Types.Codec.Errors.{codec_version}
use alefsdb.Types.Codec.Encode.{
  encode, encode_value, encode_payload, encode_scalar, encode_items, encode_fields, encode_entries,
  encode_set, payloads, concat, write_u32, write_str, sort_payloads, dedup,
}
use alefsdb.Types.Codec.Decode.{
  decode, decode_value, decode_tag, decode_items, decode_members, decode_fields, decode_entries,
  decode_scalar_value, as_scalar, check_ascending, read_u8,
}
use alefsdb.Types.Codec.Canonical.{
  IsCanonical, AllItems, AllFields, AllEntries, IsScalar, IsText, Follows,
}
use alefsdb.Types.Codec.Sorting.{sort_payloads-Follows, dedup-Follows}
use Parts.{read_u32-write_u32, read_str-write_str, decode_value-encode_scalar}
use Prim.Native.Nat.Ordering.{gt}

length-encode_scalar_pos : (s : Scalar) → 0 < length (encode_scalar s)
unfolding encode_scalar
length-encode_scalar_pos s = ground arith

pub length-encode_value_pos : (v : Value) → 0 < length (encode_value v)
unfolding encode_value encode_set
length-encode_value_pos (scalar s) = length-encode_scalar_pos s
length-encode_value_pos (hash m) = omega arith
length-encode_value_pos (set m) = omega arith
length-encode_value_pos (list m) = omega arith
length-encode_value_pos (tree m) = omega arith

-- With fuel for its bytes, the value is read off the front of any input.
abbrev Reads : Value → Type 0
Reads v =
    (f : ℕ) (rest : Bytes)
    → length (encode_value v) ≤ f
    → decode_value f (encode_value v ++ rest) ≡ ok (v, rest)

-- No value fits in no fuel.
with_fuel :
    (v : Value)
    → ((f : ℕ) (rest : Bytes)
        → length (encode_value v) ≤ suc f
        → decode_value (suc f) (encode_value v ++ rest) ≡ ok (v, rest))
    → Reads v
with_fuel v k zero rest h = absurd (omega (arith, length-encode_value_pos v))
with_fuel v k (suc f) rest h = k f rest h

length-payloads : (m : Items) → length (payloads m) ≡ length (items m)
unfolding encode_value items
length-payloads no_items = refl
length-payloads (item v m) = ap suc (length-payloads m)

-- A set in the order of its payloads is encoded as it is.
encode_set-Follows :
    (m : Items)
    → Follows none (payloads m)
    → encode_set (payloads m) ≡ 0x11 ∷ (write_u32 (length (items m)) ++ concat (payloads m))
unfolding encode_set
encode_set-Follows m h =
    rw (sort_payloads-Follows (payloads m) h, dedup-Follows (payloads m) h, length-payloads m)

check_ascending-Follows :
    (last : Option Bytes) (p : Bytes) (ps : List Bytes)
    → Follows last (p ∷ ps)
    → check_ascending last p ≡ ok tt
unfolding check_ascending
check_ascending-Follows none p ps h = refl
check_ascending-Follows (some q) p ps h = rw (bytes_ord.gt_of_lt q p h.0, check_ascending)

Follows-tail :
    (last : Option Bytes) (p : Bytes) (ps : List Bytes)
    → Follows last (p ∷ ps)
    → Follows (some p) ps
Follows-tail none p ps h = h
Follows-tail (some q) p ps h = h.1

as_scalar_of :
    (f : ℕ) (s : Scalar) (rest : Bytes)
    → IsScalar s
    → length (encode_scalar s) ≤ f
    → decode_scalar_value (decode_value f) (encode_scalar s ++ rest) ≡ ok (s, rest)
unfolding decode_scalar_value as_scalar
as_scalar_of zero s rest c h = absurd (omega (arith, length-encode_scalar_pos s))
as_scalar_of (suc f) s rest c h = rw (decode_value-encode_scalar f s rest c)

mutual
  unfolding encode_value decode_value decode_tag read_u8 decode_items decode_members decode_fields
      decode_entries items fields entries concat encode_payload

  value-Reads : (v : Value) → IsCanonical v → Reads v
  value-Reads (scalar s) c = with_fuel (scalar s) λ f rest h. decode_value-encode_scalar f s rest c
  value-Reads (hash m) c = with_fuel (hash m) λ f rest h. simp (
    append_assoc,
    read_u32-write_u32 (length (fields m)) (encode_fields m ++ rest) c.0,
    fields_read m c.2 [] c.1 f rest
        (omega (arith, length-append {0} (write_u32 (length (fields m))) (encode_fields m))),
    of_fields-fields,
  )
  value-Reads (set m) c = with_fuel (set m) λ f rest h.
      let e = encode_set-Follows m c.1 in
      let fits : length (0x11 ∷ (write_u32 (length (items m)) ++ concat (payloads m))) ≤ suc f =
        rw e at h in
      simp (
        e,
        append_assoc,
        read_u32-write_u32 (length (items m)) (concat (payloads m) ++ rest) c.0,
        members_read m c.2 none c.1 f rest
            (omega (arith, length-append {0} (write_u32 (length (items m))) (concat (payloads m)))),
      )
  value-Reads (list m) c = with_fuel (list m) λ f rest h. simp (
    append_assoc,
    read_u32-write_u32 (length (items m)) (encode_items m ++ rest) c.0,
    items_read m c.1 f rest
        (omega (arith, length-append {0} (write_u32 (length (items m))) (encode_items m))),
  )
  value-Reads (tree m) c = with_fuel (tree m) λ f rest h. simp (
    append_assoc,
    read_u32-write_u32 (length (entries m)) (encode_entries m ++ rest) c.0,
    entries_read m c.2 [] c.1 f rest
        (omega (arith, length-append {0} (write_u32 (length (entries m))) (encode_entries m))),
    of_entries-entries,
  )

  items_read :
      (m : Items)
      → AllItems m
      → (f : ℕ) (rest : Bytes) → length (encode_items m) ≤ f
      → decode_items (decode_value f) (length (items m)) (encode_items m ++ rest) ≡ ok (m, rest)
  items_read no_items c f rest h = refl
  items_read (item v m) c f rest h = simp (
    append_assoc,
    value-Reads v c.0 f (encode_items m ++ rest)
        (omega (arith, length-append {0} (encode_value v) (encode_items m))),
    items_read m c.1 f rest (omega (arith, length-append {0} (encode_value v) (encode_items m))),
  )

  members_read :
      (m : Items)
      → AllItems m
      → (last : Option Bytes) → Follows last (payloads m)
      → (f : ℕ) (rest : Bytes) → length (concat (payloads m)) ≤ f
      → decode_members (decode_value f) (length (items m)) last (concat (payloads m) ++ rest)
        ≡ ok (m, rest)
  members_read no_items c last s f rest h = refl
  members_read (item v m) c last s f rest h =
      let ps = payloads m in
      let fits = length-append {0} (encode_value v) (concat ps) in
      simp (
        append_assoc,
        value-Reads v c.0 f (concat ps ++ rest) (omega (arith, fits)),
        check_ascending-Follows last (encode_value v) ps s,
        members_read m c.1 (some (encode_value v)) (Follows-tail last (encode_value v) ps s) f rest
            (omega (arith, fits)),
      )

  fields_read :
      (m : Fields)
      → AllFields m
      → (acc : OrdMap Bytes Value) → Sorted (acc ++ fields m)
      → (f : ℕ) (rest : Bytes) → length (encode_fields m) ≤ f
      → decode_fields (decode_value f) (length (fields m)) acc (encode_fields m ++ rest)
        ≡ ok (of_fields (acc ++ fields m), rest)
  fields_read no_fields c acc s f rest h = rw append-nil
  fields_read (field k v m) c acc s f rest h =
      let tail = encode_value v ++ encode_fields m in
      let fits = length-append {0} (write_str k) tail in
      let fits' = length-append {0} (encode_value v) (encode_fields m) in
      simp (
        append_assoc,
        read_str-write_str k (encode_value v ++ (encode_fields m ++ rest)) c.0,
        value-Reads v c.1 f (encode_fields m ++ rest) (omega (arith, fits, fits')),
        insert-eq-append acc k v (fields m) s,
        fields_read m c.2 (acc ++ (k, v) ∷ []) (rw append_assoc s) f rest
            (omega (arith, fits, fits')),
      )

  entries_read :
      (m : Entries)
      → AllEntries m
      → (acc : OrdMap Scalar Value) → Sorted (acc ++ entries m)
      → (f : ℕ) (rest : Bytes) → length (encode_entries m) ≤ f
      → decode_entries (decode_value f) (length (entries m)) acc (encode_entries m ++ rest)
        ≡ ok (of_entries (acc ++ entries m), rest)
  entries_read no_entries c acc s f rest h = rw append-nil
  entries_read (entry k v m) c acc s f rest h =
      let tail = encode_value v ++ encode_entries m in
      let fits = length-append {0} (encode_scalar k) tail in
      let fits' = length-append {0} (encode_value v) (encode_entries m) in
      simp (
        append_assoc,
        as_scalar_of f k (encode_value v ++ (encode_entries m ++ rest)) c.0 (omega (arith, fits)),
        value-Reads v c.1 f (encode_entries m ++ rest) (omega (arith, fits, fits')),
        insert-eq-append acc k v (entries m) s,
        entries_read m c.2 (acc ++ (k, v) ∷ []) (rw append_assoc s) f rest
            (omega (arith, fits, fits')),
      )

-- The encoding of a canonical value is read off the front of any input by fuel for its bytes.
pub decode_value-encode_value :
    (v : Value) (f : ℕ) (rest : Bytes)
    → IsCanonical v
    → length (encode_value v) ≤ f
    → decode_value f (encode_value v ++ rest) ≡ ok (v, rest)
decode_value-encode_value v f rest c = value-Reads v c f rest

-- A canonical value is decoded from its encoding.
pub decode-encode : (v : Value) → IsCanonical v → decode (encode v) ≡ ok v
unfolding decode encode
decode-encode v c =
    let e = value-Reads v c (suc (length (encode_value v))) [] (omega arith) in
    rw (rw append-nil at e)

-- No two canonical values have one encoding.
pub encode-injective : (v w : Value) → IsCanonical v → IsCanonical w → encode v ≡ encode w → v ≡ w
encode-injective v w c d p = cc (decode-encode v c, decode-encode w d)
