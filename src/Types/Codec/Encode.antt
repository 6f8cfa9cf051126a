-- ===== src/Types/Codec/Encode.antt =====
-- `encode` and `encode_payload`. Where the source pushes onto `out`, a function here returns what
-- it pushes.
use alefsdb.Prelude.{ℕ, ◌-◌, ◌^◌, ◌%◌, List, [], ◌∷◌, ◌++◌, length, if◌then◌else◌}
use alefsdb.Prelude.Order.{ℤ, pos, negsuc, list_ord, nat_ord}
use alefsdb.Bytes.{Bytes, bytes_ord, le_bytes, same}
use alefsdb.Types.Value.{
  Scalar, null, bool, int, float, string, bytes, Value, scalar, hash, set, list, tree, Items,
  no_items, item, Fields, no_fields, field, Entries, no_entries, entry, items, fields, entries,
}
use Prim.Native.Nat.Ordering.{gt}
use alefsdb.Types.Codec.Errors.{codec_version}

-- `n as u32` keeps the low 32 bits.
unfoldable pub write_u32 : ℕ → Bytes
write_u32 n = le_bytes 4 (n % 2 ^ 32)

unfoldable pub write_str : Bytes → Bytes
write_str s = write_u32 (length s) ++ s

-- The bits of an `i64`, in two's complement.
unfoldable pub i64_bits : ℤ → ℕ
i64_bits (pos n) = n
i64_bits (negsuc n) = 2 ^ 64 - 1 - n

unfoldable pub encode_scalar : Scalar → Bytes
encode_scalar null = 0x00 ∷ []
encode_scalar (bool b) = 0x01 ∷ (if b then 1 else 0) ∷ []
encode_scalar (int n) = 0x02 ∷ le_bytes 8 (i64_bits n)
encode_scalar (float bits) = 0x03 ∷ le_bytes 8 bits
encode_scalar (string s) = 0x04 ∷ write_str s
encode_scalar (bytes b) = 0x05 ∷ (write_u32 (length b) ++ b)

-- `sort_by(|a, b| a.0.cmp(&b.0))` is stable: an insertion sort that passes no equal payload.
unfoldable pub insert_payload : Bytes → List Bytes → List Bytes
insert_payload p [] = p ∷ []
insert_payload p (q ∷ qs) = elim (bytes_ord.cmp p q) [
  | gt ↦ q ∷ insert_payload p qs
  | _ ↦ p ∷ q ∷ qs
]

unfoldable pub sort_payloads : List Bytes → List Bytes
unfolding insert_payload
sort_payloads [] = []
sort_payloads (p ∷ ps) = insert_payload p (sort_payloads ps)

-- `dedup_by` drops an item that equals the one kept before it.
unfoldable pub dedup_after : Bytes → List Bytes → List Bytes
dedup_after p [] = []
dedup_after p (q ∷ qs) = if same q p then dedup_after p qs else q ∷ dedup_after q qs

unfoldable pub dedup : List Bytes → List Bytes
unfolding dedup_after
dedup [] = []
dedup (p ∷ ps) = p ∷ dedup_after p ps

unfoldable pub concat : List Bytes → Bytes
concat [] = []
concat (p ∷ ps) = p ++ concat ps

-- The set's part of `encode_value`, from the payloads of its members.
unfoldable pub encode_set : List Bytes → Bytes
unfolding sort_payloads dedup concat
encode_set ps =
    let encoded = dedup (sort_payloads ps) in 0x11 ∷ (write_u32 (length encoded) ++ concat encoded)

unfoldable mutual
  pub encode_value : Value → Bytes
  encode_value (scalar s) = encode_scalar s
  encode_value (hash m) = 0x10 ∷ (write_u32 (length (fields m)) ++ encode_fields m)
  encode_value (set m) = encode_set (payloads m)
  encode_value (list m) = 0x12 ∷ (write_u32 (length (items m)) ++ encode_items m)
  encode_value (tree m) = 0x13 ∷ (write_u32 (length (entries m)) ++ encode_entries m)

  -- `encode_payload` of each member
  pub payloads : Items → List Bytes
  payloads no_items = []
  payloads (item v m) = encode_value v ∷ payloads m

  pub encode_items : Items → Bytes
  encode_items no_items = []
  encode_items (item v m) = encode_value v ++ encode_items m

  pub encode_fields : Fields → Bytes
  encode_fields no_fields = []
  encode_fields (field k v m) = write_str k ++ (encode_value v ++ encode_fields m)

  pub encode_entries : Entries → Bytes
  encode_entries no_entries = []
  encode_entries (entry k v m) = encode_scalar k ++ (encode_value v ++ encode_entries m)

unfoldable pub encode : Value → Bytes
encode v = codec_version ∷ encode_value v

unfoldable pub encode_payload : Value → Bytes
encode_payload v = encode_value v
