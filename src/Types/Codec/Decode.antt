-- ===== src/Types/Codec/Decode.antt =====
-- `decode`. A value inside a value costs a unit of fuel, and `decode` hands out the length of its
-- input.
use alefsdb.Prelude.{
  ℕ, zero, suc, ◌-◌, ◌^◌, true, false, Option, none, some, [], ◌∷◌, length, Result, ok, err, ◌==◌,
  ltb, if◌then◌else◌,
}
use alefsdb.Prelude.Order.{ℤ, pos, negsuc, list_ord, nat_ord}
use alefsdb.Prelude.OrdMap.{OrdMap, insert}
use alefsdb.Bytes.{Bytes, bytes_ord, valid_utf8}
use alefsdb.Bytes.Reader.{Reader, pure, fail, ◌>>=◌, take_byte, take_slice, take_le}
use alefsdb.Types.Value.{
  Scalar, null, bool, int, float, string, bytes, Value, scalar, hash, set, list, tree, Items,
  no_items, item, Fields, Entries, of_fields, of_entries,
}
use alefsdb.Types.Value.Order.{scalar_ord}
use Prim.Native.Nat.Ordering.{gt}
use alefsdb.Types.Codec.Errors.{
  CodecError, empty_input, unsupported_version, unexpected_eof, unknown_tag, invalid_utf8,
  invalid_bool, trailing_bytes, duplicate_set_member, codec_version,
}
use alefsdb.Types.Codec.Encode.{encode_payload}

abbrev pub Read {ℓ} : Type ℓ → Type ℓ
Read A = Reader CodecError A

unfoldable pub read_u8 : Read ℕ
unfolding take_byte
read_u8 = take_byte unexpected_eof

unfoldable pub read_slice : ℕ → Read Bytes
read_slice = take_slice unexpected_eof

-- `from_le_bytes(read_array(cur)?)` at `w` bytes.
unfoldable pub read_int : ℕ → Read ℕ
read_int = take_le unexpected_eof

unfoldable pub read_u32 : Read ℕ
unfolding read_int
read_u32 = read_int 4

-- `from_utf8(..).map_err(..)`
unfoldable pub utf8_string : Bytes → Read Bytes
utf8_string s = if valid_utf8 s then pure s else fail invalid_utf8

unfoldable pub read_str : Read Bytes
read_str = do len ← read_u32; s ← read_slice len; utf8_string s

-- The `i64` of 64 bits.
unfoldable pub i64_of_bits : ℕ → ℤ
i64_of_bits n = if ltb n (2 ^ 63) then pos n else negsuc (2 ^ 64 - 1 - n)

unfoldable pub bool_value : ℕ → Read Value
bool_value b =
    if b == 0
    then pure (scalar (bool false))
    else if b == 1
    then pure (scalar (bool true))
    else fail (invalid_bool b)

-- `payload <= prev` is a refusal.
unfoldable pub check_ascending : Option Bytes → Bytes → Result CodecError (Unit {0})
check_ascending none payload = ok tt
check_ascending (some prev) payload = elim (bytes_ord.cmp payload prev) [
  | gt ↦ ok tt
  | _ ↦ err duplicate_set_member
]

abbrev lift : Result CodecError (Unit {0}) → Read (Unit {0})
lift (ok u) cur = ok (u, cur)
lift (err e) cur = err e

unfoldable pub as_scalar : Value → Read Scalar
as_scalar (scalar s) = pure s
as_scalar _ = fail (unknown_tag 0xff)

-- The loops over the parts of a container; `rec` reads one value.
module _ (rec : Read Value) where
  unfoldable pub decode_items : ℕ → Read Items
  decode_items zero = pure no_items
  decode_items (suc n) = do v ← rec; vs ← decode_items n; pure (item v vs)

  unfoldable pub decode_members : ℕ → Option Bytes → Read Items
  decode_members zero last = pure no_items
  decode_members (suc n) last = do
    v ← rec
    u ← lift (check_ascending last (encode_payload v))
    vs ← decode_members n (some (encode_payload v))
    pure (item v vs)

  unfoldable pub decode_fields : ℕ → OrdMap Bytes Value → Read Fields
  decode_fields zero m = pure (of_fields m)
  decode_fields (suc n) m = do k ← read_str; v ← rec; decode_fields n (insert k v m)

  unfoldable pub decode_scalar_value : Read Scalar
  decode_scalar_value = do v ← rec; as_scalar v

  unfoldable pub decode_entries : ℕ → OrdMap Scalar Value → Read Entries
  decode_entries zero m = pure (of_entries m)
  decode_entries (suc n) m = do k ← decode_scalar_value; v ← rec; decode_entries n (insert k v m)

  -- The match on the tag.
  unfoldable pub decode_tag : ℕ → Read Value
  decode_tag tag =
      if tag == 0x00
      then pure (scalar null)
      else if tag == 0x01
      then (do b ← read_u8; bool_value b)
      else if tag == 0x02
      then (do n ← read_int 8; pure (scalar (int (i64_of_bits n))))
      else if tag == 0x03
      then (do bits ← read_int 8; pure (scalar (float bits)))
      else if tag == 0x04
      then (do s ← read_str; pure (scalar (string s)))
      else if tag == 0x05
      then (do len ← read_u32; b ← read_slice len; pure (scalar (bytes b)))
      else if tag == 0x10
      then (do n ← read_u32; m ← decode_fields n []; pure (hash m))
      else if tag == 0x11
      then (do n ← read_u32; m ← decode_members n none; pure (set m))
      else if tag == 0x12
      then (do n ← read_u32; m ← decode_items n; pure (list m))
      else if tag == 0x13
      then (do n ← read_u32; m ← decode_entries n []; pure (tree m))
      else fail (unknown_tag tag)

unfoldable pub decode_value : ℕ → Read Value
decode_value zero cur = err unexpected_eof
decode_value (suc f) cur = (do tag ← read_u8; decode_tag (decode_value f) tag) cur

abbrev finish : Result CodecError (Value × Bytes) → Result CodecError Value
finish (ok (v, [])) = ok v
finish (ok (v, b ∷ bs)) = err trailing_bytes
finish (err e) = err e

unfoldable pub decode : Bytes → Result CodecError Value
decode [] = err empty_input
decode (version ∷ cur) =
    if version == codec_version
    then finish (decode_value (suc (length cur)) cur)
    else err (unsupported_version version)
