-- ===== src/Tests/Values.antt =====
-- Encodings of crates/alefs-types/src/codec.rs.
use alefsdb.Prelude.{◌≡◌, refl, [], ◌∷◌, ok, true, arith}
use alefsdb.Prelude.Order.{pos, negsuc, nat_ord, list_ord, cmp_list}
use alefsdb.Bytes.{le_bytes, valid_utf8}
use alefsdb.Types.Value.{
  bool, int, string, Value, scalar, hash, set, list, no_items, item, no_fields, field, items,
  fields,
}
use alefsdb.Types.Codec.Encode.{encode, encode_value, encode_scalar, write_u32, write_str, i64_bits}
use alefsdb.Types.Codec.Decode.{decode}
use alefsdb.Types.Codec.Canonical.{IsCanonical}
use alefsdb.Types.Codec.RoundTrip.{decode-encode}

-- {"k": [-42, true], "s": {1, "a"}}
abbrev sample : Value
sample = hash (field (107 ∷ []) pair (field (115 ∷ []) members no_fields))
  where
    pair : Value
    pair = list (item (scalar (int (negsuc 41))) (item (scalar (bool true)) no_items))

    members : Value
    members = set (item (scalar (int (pos 1))) (item (scalar (string (97 ∷ []))) no_items))

sample-IsCanonical : IsCanonical sample
unfolding encode_value encode_scalar fields items cmp_list valid_utf8 write_u32 write_str i64_bits
    le_bytes
sample-IsCanonical = (
  omega arith,
  ((refl, tt), (tt, tt)),
  (
    (refl, omega arith),
    (omega arith, (omega arith, (tt, tt))),
    ((refl, omega arith), (omega arith, (refl, tt), (omega arith, ((refl, omega arith), tt))), tt),
  ),
)

decode-encode_example : decode (encode sample) ≡ ok sample
decode-encode_example = decode-encode sample sample-IsCanonical
