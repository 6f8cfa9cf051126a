-- ===== src/Types/Codec/RoundTrip/Parts.antt =====
-- Each writer of the encoding against its reader, with anything behind what was written.
use alefsdb.Prelude.{
  ℕ, suc, ◌<◌, ◌%◌, ◌^◌, ◌≡◌, refl, true, false, ◌++◌, arith, ok, length, append_assoc,
}
use alefsdb.Prelude.Order.{ℤ, pos, negsuc}
use alefsdb.Bytes.{Bytes, valid_utf8, le_bytes}
use alefsdb.Bytes.Reader.{take_slice-append, take_le-append}
use alefsdb.Types.Value.{Scalar, null, bool, int, float, string, bytes, scalar}
use alefsdb.Types.Codec.Errors.{unexpected_eof}
use alefsdb.Types.Codec.Encode.{write_u32, write_str, i64_bits, encode_scalar}
use alefsdb.Types.Codec.Decode.{
  read_u8, read_slice, read_int, read_u32, read_str, utf8_string, i64_of_bits, bool_value,
  decode_tag, decode_value,
}
use alefsdb.Bytes.Decimal.{IsI64}
use alefsdb.Types.Codec.Canonical.{IsText, IsScalar}

pub read_int-append :
    (w n : ℕ) (rest : Bytes) → n < 256 ^ w → read_int w (le_bytes w n ++ rest) ≡ ok (n, rest)
unfolding read_int
read_int-append w n rest h = take_le-append unexpected_eof w n rest h

pub read_u32-write_u32 :
    (n : ℕ) (rest : Bytes) → n < 2 ^ 32 → read_u32 (write_u32 n ++ rest) ≡ ok (n, rest)
unfolding read_u32 write_u32
read_u32-write_u32 n rest h =
    let e : n % 2 ^ 32 ≡ n = omega arith in rw e (take_le-append unexpected_eof 4 n rest h)

pub read_slice-append : (s rest : Bytes) → read_slice (length s) (s ++ rest) ≡ ok (s, rest)
unfolding read_slice
read_slice-append s rest = take_slice-append unexpected_eof (length s) s rest refl

utf8_string-valid : (s rest : Bytes) → valid_utf8 s ≡ true → utf8_string s rest ≡ ok (s, rest)
unfolding utf8_string
utf8_string-valid s rest h = rw h

pub read_str-write_str : (s rest : Bytes) → IsText s → read_str (write_str s ++ rest) ≡ ok (s, rest)
unfolding read_str write_str
read_str-write_str s rest h =
    simp (append_assoc, read_u32-write_u32 (length s) (s ++ rest) h.1, read_slice-append s rest)
      (utf8_string-valid s rest h.0)

i64_bits-lt : (n : ℤ) → IsI64 n → i64_bits n < 2 ^ 64
unfolding i64_bits
i64_bits-lt (pos n) h = omega arith
i64_bits-lt (negsuc n) h = omega arith

i64_of_bits-i64_bits : (n : ℤ) → IsI64 n → i64_of_bits (i64_bits n) ≡ n
unfolding i64_bits i64_of_bits
i64_of_bits-i64_bits (pos n) h = ground arith
i64_of_bits-i64_bits (negsuc n) h = ground arith

-- A scalar costs one unit of fuel.
pub decode_value-encode_scalar :
    (f : ℕ) (s : Scalar) (rest : Bytes)
    → IsScalar s
    → decode_value (suc f) (encode_scalar s ++ rest) ≡ ok (scalar s, rest)
unfolding decode_value decode_tag read_u8 encode_scalar bool_value
decode_value-encode_scalar f null rest h = refl
decode_value-encode_scalar f (bool true) rest h = refl
decode_value-encode_scalar f (bool false) rest h = refl
decode_value-encode_scalar f (int n) rest h =
    rw (read_int-append 8 (i64_bits n) rest (i64_bits-lt n h), i64_of_bits-i64_bits n h)
decode_value-encode_scalar f (float bits) rest h = rw (read_int-append 8 bits rest h)
decode_value-encode_scalar f (string s) rest h = rw (read_str-write_str s rest h)
decode_value-encode_scalar f (bytes b) rest h =
    simp (append_assoc, read_u32-write_u32 (length b) (b ++ rest) h, read_slice-append b rest)
